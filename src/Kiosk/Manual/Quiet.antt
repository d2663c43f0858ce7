-- ===== src/Kiosk/Manual/Quiet.antt =====
-- The keys of the manual focus send the server no command.
use familyplanner.Prelude.{
  ◌≡◌, refl, Bool, true, false, ◌&&◌, Option, none, some, List, [], ◌∷◌, if◌then◌else◌, pos, negsuc,
  ℤ, ℕ,
}
use familyplanner.Kiosk.State.{
  Effect, PdfBox, Widget, control, video_toggle, slide_step, pdf_scroll, pdf_step, pdf_zoom,
  is_positive,
}
use familyplanner.Kiosk.Manual.{
  Focus, Hooks, pdf_key, medium_key, medium_or_cell, scroll_at, scroll_idx, scroll_focused,
  zoom_focused_pdf,
}

-- Not a command to the server.
abbrev pub is_local : Effect → Bool
is_local (control c) = false
is_local _ = true

pub data IsQuiet : List Effect → Type 0 where
  none_sent : IsQuiet []
  one_sent : (e : Effect) → is_local e ≡ true → IsQuiet (e ∷ [])

abbrev IsQuietKey : Option Effect → Type 0
IsQuietKey none = Unit
IsQuietKey (some e) = is_local e ≡ true

pdf_if-IsQuietKey :
    (a b c : Bool) (k : ℕ) (dir : ℤ)
    → IsQuietKey (
        if a
        then (if b then some (pdf_scroll k dir) else if c then some (pdf_step k dir) else none)
        else none)
pdf_if-IsQuietKey true true c k dir = refl
pdf_if-IsQuietKey true false true k dir = refl
pdf_if-IsQuietKey true false false k dir = tt
pdf_if-IsQuietKey false b c k dir = tt

pdf_key-IsQuietKey :
    (hooks : Hooks) (dir : ℤ) (k : ℕ) (p : Option PdfBox) → IsQuietKey (pdf_key hooks dir k p)
unfolding pdf_key
pdf_key-IsQuietKey hooks dir k none = tt
pdf_key-IsQuietKey hooks dir k (some p) =
    pdf_if-IsQuietKey (is_positive p.interval) (p.fit_width && hooks.scrolls_pdf) hooks.steps_pdf k
      dir

medium_if-IsQuietKey :
    (a b : Bool) (k : ℕ) (dir : ℤ) (o : Option Effect)
    → IsQuietKey o
    → IsQuietKey (if a then some (video_toggle k) else if b then some (slide_step k dir) else o)
medium_if-IsQuietKey true b k dir o q = refl
medium_if-IsQuietKey false true k dir o q = refl
medium_if-IsQuietKey false false k dir o q = q

medium_or_cell-IsQuiet :
    (dir : ℤ) (o : Option Effect) (f : Focus) → IsQuietKey o → IsQuiet (medium_or_cell dir o f).1
unfolding medium_or_cell
medium_or_cell-IsQuiet dir none f q = none_sent
medium_or_cell-IsQuiet dir (some e) f q = one_sent e q

scroll_at-IsQuiet :
    (hooks : Hooks) (dir : ℤ) (k : ℕ) (w : Option Widget) (f : Focus)
    → IsQuiet (scroll_at hooks dir k w f).1
unfolding scroll_at medium_key
scroll_at-IsQuiet hooks dir k none f = none_sent
scroll_at-IsQuiet hooks dir k (some w) f = medium_or_cell-IsQuiet dir (medium_key hooks dir k w) f (
    medium_if-IsQuietKey (w.video && hooks.toggles_video) w.slides k dir (pdf_key hooks dir k w.pdf)
      (pdf_key-IsQuietKey hooks dir k w.pdf))

scroll_idx-IsQuiet :
    (hooks : Hooks) (dir idx : ℤ) (f : Focus) → IsQuiet (scroll_idx hooks dir idx f).1
unfolding scroll_idx
scroll_idx-IsQuiet hooks dir (pos k) f = scroll_at-IsQuiet hooks dir k _ f
scroll_idx-IsQuiet hooks dir (negsuc k) f = none_sent

pub scroll_focused-IsQuiet :
    (hooks : Hooks) (dir : ℤ) (f : Focus) → IsQuiet (scroll_focused hooks dir f).1
unfolding scroll_focused
scroll_focused-IsQuiet hooks dir f = scroll_idx-IsQuiet hooks dir f.focus_idx f

zoom_if-IsQuiet :
    (b : Bool) (o : Option ℕ) (delta : ℤ) → IsQuiet (if b then pdf_zoom o delta ∷ [] else [])
zoom_if-IsQuiet true o delta = one_sent (pdf_zoom o delta) refl
zoom_if-IsQuiet false o delta = none_sent

pub zoom_focused_pdf-IsQuiet :
    (hooks : Hooks) (delta : ℤ) (p : Option ℤ) (f : Focus)
    → IsQuiet (zoom_focused_pdf hooks delta p f)
unfolding zoom_focused_pdf
zoom_focused_pdf-IsQuiet hooks delta p f = zoom_if-IsQuiet _ _ delta
