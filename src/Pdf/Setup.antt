-- ===== src/Pdf/Setup.antt =====
-- The set-up of the PDF widgets of a view, pdf-widget.js: `fpSetupPdfs` with the beginning of `setupPdf`.
mod Twice
use familyplanner.Prelude.{Bool, true, false, Option, none, some, List, [], ◌∷◌, ℤ}
use familyplanner.Pdf.Slides.{Pdf, set_up}

-- A `.w-pdf`: its attributes, and `__fpPdf`.
pub record Holder : Type 0 where
  pub has_url : Bool
  pub interval : ℤ
  pub fit_width : Bool
  pub widget : Option Pdf

unfoldable pub set_up_if : Bool → Option Pdf → Bool → Holder → Holder
set_up_if false w on_end h = h
set_up_if true (some w) on_end h = h
set_up_if true none on_end h = record h { widget = some (set_up h.interval h.fit_width on_end) }

-- `fpSetupPdfs(root, opts)`, for the elements in the root, with `opts.onEnd` there or not.
unfoldable pub set_up_pdfs : Bool → List Holder → List Holder
set_up_pdfs on_end [] = []
set_up_pdfs on_end (h ∷ hs) = set_up_if h.has_url h.widget on_end h ∷ set_up_pdfs on_end hs
