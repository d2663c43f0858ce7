-- ===== src/Kiosk/State.antt =====
-- The variables of kiosk.js that its event handlers share, what the handlers see of the document,
-- and the calls that they make to the browser and to the other scripts.
use Prim.Native.String.{String}
use familyplanner.Prelude.{
  ℕ, zero, suc, Bool, true, false, Option, none, some, List, [], ◌∷◌, if◌then◌else◌, ℤ, pos, negsuc,
}
use text.Mathlib.Text.{◌==◌ as str_eq}

-- A `.cell-scroll` inside a widget. Its position is kept in fifths of a pixel.
pub record Box : Type 0 where
  pub frozen : Bool  -- `__fpFrozen`
  pub top : ℕ  -- `scrollTop`, in fifths
  pub over : ℕ  -- `scrollHeight - clientHeight`
  pub client : ℕ  -- `clientHeight`

-- A `.w-pdf` inside a widget: `parseInt(dataset.pdfInterval) || 0`, and whether `data-pdf-fit` is
-- "width".
pub record PdfBox : Type 0 where
  pub interval : ℤ
  pub fit_width : Bool

-- A `.widget` of the stage, with what `querySelector` finds inside it.
pub record Widget : Type 0 where
  pub focused : Bool  -- the class `w-focused`
  pub cell : Option Box
  pub video : Bool  -- a `.w-yt`
  pub slides : Bool  -- a `.w-slideshow` that has its step function
  pub pdf : Option PdfBox

-- What the queries of the script find on the stage, besides the widgets.
pub record Doc : Type 0 where
  pub advance_on_end : Option Bool  -- the `.view`, and its `data-advance-on-end === "1"`
  pub video : Bool  -- a `.w-yt` anywhere
  pub pdf : Option ℤ  -- the interval of the first `.w-pdf`
  pub slid : Bool  -- the class `kslide` on the `.view`

-- A call of `loadView` that waits for its answer.
pub record Request : Type 0 where
  pub id : String
  pub animate : Bool

pub data Effect : Type 0 where
  beat : Effect  -- the watchdog's heartbeat
  reload : Effect  -- `location.reload()`
  control : String → Effect  -- `fpCtl(cmd)`
  load_ticker : Effect
  set_up_page : ℤ → Bool → Effect  -- the set-up calls behind a swap: dwell, advance on end
  set_up_cells : ℤ → Effect  -- `setupCellScroll(stage, dwell)`
  progress : ℤ → Effect  -- the bar under the stage
  redraw_clock : Effect
  video_toggle : ℕ → Effect
  slide_step : ℕ → ℤ → Effect  -- `__fpStep(dir)` and `__fpReset()`
  pdf_scroll : ℕ → ℤ → Effect
  pdf_step : ℕ → ℤ → Effect
  pdf_zoom : Option ℕ → ℤ → Effect  -- the focused widget's, or the only one of the stage
  pip_mute : Effect
  pip_play_pause : Effect
  pip_toggle : Effect
  pip_next : Effect
  pip_prev : Effect
  snooze : Effect

-- A script's truth value of a number that is tested by `> 0`.
abbrev pub is_positive : ℤ → Bool
is_positive (pos zero) = false
is_positive (pos (suc n)) = true
is_positive (negsuc n) = false

abbrev pub is_negative : ℤ → Bool
is_negative (pos n) = false
is_negative (negsuc n) = true

-- An object from names to names; a missing name reads as `undefined`.
unfoldable pub lookup : String → List (String × String) → Option String
lookup k [] = none
lookup k ((j, v) ∷ m) = if str_eq j k then some v else lookup k m

abbrev pub is_empty : String → Bool
is_empty s = str_eq s ""
