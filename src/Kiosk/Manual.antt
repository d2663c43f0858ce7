-- ===== src/Kiosk/Manual.antt =====
-- The user's focus on one widget in kiosk.js: `freezeFocused`, `focusWidget`, `scrollFocused`,
-- `exitManual` and `zoomFocusedPdf`.
mod Index
mod Walk
pub mod Quiet
pub mod Laws
pub mod Keys
mod Tests
use familyplanner.Prelude.{
  ℕ, zero, suc, ◌+◌, ◌-◌, ◌*◌, Bool, true, false, Option, none, some, List, [], ◌∷◌, if◌then◌else◌,
  ltb, length, get_elem?, not, ◌&&◌, ◌==◌, ℤ, pos, negsuc, ◌+ℤ◌, ◌-ℤ◌, ltb_ℤ, eqb_ℤ, rem_ℤ, min,
  max, map,
}
use familyplanner.Kiosk.State.{
  Box, PdfBox, Widget, Effect, video_toggle, slide_step, pdf_scroll, pdf_step, pdf_zoom,
  is_positive, is_negative,
}

-- The widgets on the stage, `focusIdx`, and `frozenEl` as the place of the widget that it lies in.
pub record Focus : Type 0 where
  pub widgets : List Widget
  pub focus_idx : ℤ
  pub frozen : Option ℕ

pub update_at {ℓ} : {A : Type ℓ} → ℕ → (A → A) → List A → List A
update_at i f [] = []
update_at zero f (x ∷ xs) = f x ∷ xs
update_at (suc i) f (x ∷ xs) = x ∷ update_at i f xs

abbrev pub flag_box : Bool → Option Box → Option Box
flag_box b none = none
flag_box b (some c) = some (record c { frozen = b })

-- `sc.__fpFrozen = b`
abbrev pub flag : Bool → Widget → Widget
flag b w = record w { cell = flag_box b w.cell }

-- `frozenEl.__fpFrozen = false`
pub thaw : Option ℕ → List Widget → List Widget
thaw none ws = ws
thaw (some i) ws = update_at i (flag false) ws

-- `w.classList.toggle("w-focused", i === focusIdx)`
abbrev pub mark : ℤ → ℕ → Widget → Widget
mark idx i w = record w { focused = eqb_ℤ (pos i) idx }

-- The same for all widgets, from the index `i` on.
pub mark_from : ℕ → ℤ → List Widget → List Widget
mark_from i idx [] = []
mark_from i idx (w ∷ ws) = mark idx i w ∷ mark_from (i + 1) idx ws

-- The widget's scroller, if the widget is there and has one.
pub scroller : Option Widget → Option Box
scroller none = none
scroller (some w) = w.cell

-- `els[idx]`
pub at : ℤ → List Widget → Option Widget
at (pos k) ws = get_elem? ws k
at (negsuc k) ws = none

-- `sc.__fpFrozen = true; frozenEl = sc`, where the focused widget `el` has a scroller
pub freeze : ℤ → Option Box → List Widget → List Widget × Option ℕ
freeze (pos k) (some b) ws = (update_at k (flag true) ws, some k)
freeze (pos k) none ws = (ws, none)
freeze (negsuc k) c ws = (ws, none)

pub freeze_focused : Focus → Focus
freeze_focused f =
    let thawed = thaw f.frozen f.widgets in
    let (ws, held) = freeze f.focus_idx (scroller (at f.focus_idx thawed)) thawed in
    record { widgets = mark_from 0 f.focus_idx ws; focus_idx = f.focus_idx; frozen = held }

-- The `if` and the `else` of `focusWidget`, for a stage of `n` widgets.
pub moved : ℤ → ℕ → ℤ → ℤ
moved delta n (negsuc m) = if is_positive delta then pos 0 else pos n -ℤ pos 1
moved delta n (pos k) = rem_ℤ (pos k +ℤ delta) n

-- The new `focusIdx`.
pub next_idx : ℤ → ℕ → ℤ → ℤ
next_idx delta n idx = let m = moved delta n idx in if is_negative m then m +ℤ pos n else m

pub focus_widget : ℤ → Focus → Focus
focus_widget delta f =
    if length f.widgets == 0
    then f
    else freeze_focused (record f { focus_idx = next_idx delta (length f.widgets) f.focus_idx })

-- `frozenEl.scrollTop = max(0, min(over, scrollTop + dir * max(40, 0.4 * clientHeight)))` for a `dir`
-- of 1 or -1, in fifths of a pixel.
pub scrolled : ℤ → Box → Box
scrolled dir b =
    let step = max 200 (2 * b.client) in
    record b { top = min (5 * b.over) (if is_positive dir then b.top + step else b.top - step) }

abbrev pub scroll_box : ℤ → Option Box → Option Box
scroll_box dir none = none
scroll_box dir (some b) = some (scrolled dir b)

abbrev pub scroll_widget : ℤ → Widget → Widget
scroll_widget dir w = record w { cell = scroll_box dir w.cell }

pub scroll_held : ℤ → Option ℕ → List Widget → List Widget
scroll_held dir none ws = ws
scroll_held dir (some k) ws = update_at k (scroll_widget dir) ws

-- `if (!frozenEl) freezeFocused(els)`
pub hold : Option ℕ → Focus → Focus
hold none f = freeze_focused f
hold (some k) f = f

-- The end of `scrollFocused`: the widget is no medium, so its scroller is moved.
pub scroll_cell : ℤ → Focus → Focus
scroll_cell dir f =
    let g = hold f.frozen f in record g { widgets = scroll_held dir g.frozen g.widgets }

-- Which functions of yt.js and pdf-widget.js are there.
pub record Hooks : Type 0 where
  pub toggles_video : Bool
  pub scrolls_pdf : Bool
  pub steps_pdf : Bool
  pub zooms_pdf : Bool

-- What a slideshow PDF does with the key; `none` if it leaves it to the scroller.
pub pdf_key : Hooks → ℤ → ℕ → Option PdfBox → Option Effect
pdf_key hooks dir k none = none
pdf_key hooks dir k (some p) =
    if is_positive p.interval
    then if p.fit_width && hooks.scrolls_pdf
      then some (pdf_scroll k dir)
      else if hooks.steps_pdf
      then some (pdf_step k dir)
      else none
    else none

-- What the medium of the focused widget `w`, at place `k`, does with the key.
pub medium_key : Hooks → ℤ → ℕ → Widget → Option Effect
medium_key hooks dir k w =
    if w.video && hooks.toggles_video
    then some (video_toggle k)
    else if w.slides
    then some (slide_step k dir)
    else pdf_key hooks dir k w.pdf

pub medium_or_cell : ℤ → Option Effect → Focus → Focus × List Effect
medium_or_cell dir none f = (scroll_cell dir f, [])
medium_or_cell dir (some e) f = (f, e ∷ [])

pub scroll_at : Hooks → ℤ → ℕ → Option Widget → Focus → Focus × List Effect
scroll_at hooks dir k none f = (focus_widget (pos 1) f, [])
scroll_at hooks dir k (some w) f = medium_or_cell dir (medium_key hooks dir k w) f

pub scroll_idx : Hooks → ℤ → ℤ → Focus → Focus × List Effect
scroll_idx hooks dir (pos k) f = scroll_at hooks dir k (get_elem? f.widgets k) f
scroll_idx hooks dir (negsuc k) f = (focus_widget (pos 1) f, [])

-- `scrollFocused`: without a focus in range it focuses first.
pub scroll_focused : Hooks → ℤ → Focus → Focus × List Effect
scroll_focused hooks dir f = scroll_idx hooks dir f.focus_idx f

-- `w.classList.remove("w-focused")` for all
pub unmark : List Widget → List Widget
unmark [] = []
unmark (w ∷ ws) = record w { focused = false } ∷ unmark ws

pub exit_manual : Focus → Focus
exit_manual f = record {
  widgets = unmark (thaw f.frozen f.widgets);
  focus_idx = negsuc 0;
  frozen = none;
}

-- Whether the widget has a PDF.
abbrev pub has_pdf : Option Widget → Bool
has_pdf none = false
has_pdf (some w) = elim w.pdf [ none ↦ false | some _ ↦ true ]

abbrev pub place : ℤ → Option ℕ
place (pos k) = some k
place (negsuc k) = none

-- `zoomFocusedPdf`: the focused widget's PDF, or without a focus in range the first of the stage.
pub zoom_focused_pdf : Hooks → ℤ → Option ℤ → Focus → List Effect
zoom_focused_pdf hooks delta stage_pdf f =
    let in_range = not (is_negative f.focus_idx) && ltb_ℤ f.focus_idx (pos (length f.widgets)) in
    let found =
      if in_range
      then has_pdf (at f.focus_idx f.widgets)
      else elim stage_pdf [ none ↦ false | some _ ↦ true ] in
    if found && hooks.zooms_pdf
    then pdf_zoom (if in_range then place f.focus_idx else none) delta ∷ []
    else []
