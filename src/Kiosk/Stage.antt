-- ===== src/Kiosk/Stage.antt =====
-- The stage of kiosk.js: which view it follows, `loadView`, the fallback that advances a screen which
-- nothing else would advance, and the listeners on the server's event stream.
pub mod Listen
use Prim.Native.String.{String}
use familyplanner.Prelude.{
  ℕ, zero, suc, Bool, true, false, not, ◌&&◌, ◌||◌, Option, none, some, List, [], ◌∷◌, ◌++◌,
  if◌then◌else◌, get_elem?, ℤ, pos, negsuc,
}
use text.Mathlib.Text.{◌==◌ as str_eq}
use familyplanner.Kiosk.State.{
  Widget, Doc, Request, Effect, set_up_page, is_positive, is_negative, lookup, is_empty,
}
use familyplanner.Kiosk.Manual.{Focus}

pub record Stage : Type 0 where
  pub current : Option String  -- `currentViewID`
  pub view_attr : Option String  -- `stage.dataset.viewId`
  pub override : Option String  -- `overrideViewID`
  pub names : List (String × String)  -- `viewNames`
  pub label : String  -- the text of `#kview`
  pub transition_on : Bool
  pub last_dwell : ℤ
  pub boot_id : Option String
  pub date_fmt : String
  pub doc : Doc
  pub focus : Focus
  pub pending : List Request  -- calls of `loadView` in flight, oldest first
  pub fallback : Option ℤ  -- `endFallback`: the seconds that its timer was set to

-- A view as the server renders it.
pub record Page : Type 0 where
  pub doc : Doc
  pub widgets : List Widget

-- How a fetch ends: with a page, or with an error status or an exception.
pub data Answer : Type 0 where
  page : Page → Answer
  failed : Answer

abbrev pub is_truthy : Option String → Bool
is_truthy none = false
is_truthy (some s) = not (is_empty s)

-- A variable as the key of an object: null is the key "null".
abbrev pub as_key : Option String → String
as_key none = "null"
as_key (some s) = s

-- `viewNames[id] || ""`
abbrev pub or_empty : Option String → String
or_empty none = ""
or_empty (some s) = s

pub label_of : List (String × String) → Option String → String
label_of names id = or_empty (lookup (as_key id) names)

unfoldable pub update_view_label : Option String → Stage → Stage
update_view_label id s = record s { label = label_of s.names id }

abbrev pub request : Option String → Bool → List Request
request none animate = []
request (some id) animate = if is_empty id then [] else record { id = id; animate = animate } ∷ []

-- `loadView`, up to the fetch
unfoldable pub load_view : Option String → Bool → Stage → Stage
load_view id animate s = record s { pending = s.pending ++ request id animate }

abbrev pub is_slideshow : Option ℤ → Bool
is_slideshow none = false
is_slideshow (some n) = is_positive n

-- `hasSlideshowPdf`
pub has_slideshow_pdf : Doc → Bool
has_slideshow_pdf d = is_slideshow d.pdf

abbrev pub is_on_end : Option Bool → Bool
is_on_end none = false
is_on_end (some b) = b

-- The timer that `scheduleEndFallback` leaves, in seconds.
pub end_fallback : Doc → ℤ → Option ℤ
end_fallback d dwell =
    if is_on_end d.advance_on_end && (not d.video && not (has_slideshow_pdf d))
    then some (if is_positive dwell then dwell else pos 30)
    else none

pub schedule_end_fallback : Stage → Stage
schedule_end_fallback s = record s { fallback = end_fallback s.doc s.last_dwell }

abbrev pub is_there : Option Bool → Bool
is_there none = false
is_there (some _) = true

-- `loadView`, once the page is there
pub install : Bool → Page → Stage → Stage × List Effect
install animate p s =
    let slid = animate && s.transition_on && is_there p.doc.advance_on_end in
    let s' = record s {
      doc = record (p.doc) { slid = slid };
      focus = record { widgets = p.widgets; focus_idx = negsuc 0; frozen = none };
    } in
    (schedule_end_fallback s', set_up_page s.last_dwell (is_on_end p.doc.advance_on_end) ∷ [])

pub remove_at {ℓ} : {A : Type ℓ} → ℕ → List A → List A
remove_at k [] = []
remove_at zero (x ∷ xs) = xs
remove_at (suc k) (x ∷ xs) = x ∷ remove_at k xs

pub settle : Option Request → Answer → Stage → Stage × List Effect
settle none a s = (s, [])
settle (some r) failed s = (s, [])
settle (some r) (page p) s = install r.animate p s

-- The answer to the request at place `k` of those in flight: they may come in any order.
pub answer : ℕ → Answer → Stage → Stage × List Effect
answer k a s = settle (get_elem? s.pending k) a (record s { pending = remove_at k s.pending })

-- `loadTransient`
unfoldable pub load_transient : String → Stage → Stage
load_transient id s =
    load_view (some id) true (update_view_label (some id) (record s { override = some id }))
