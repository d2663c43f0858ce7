-- ===== src/Kiosk/Overlay.antt =====
-- The overlays of kiosk.js: the list of shortcuts and the picker of screens (`renderScreens`,
-- `setOverlay`, `loadSelectedScreen`, and the keys that they take).
pub mod Laws
pub mod Picker
mod Tests
use Prim.Native.String.{String}
use familyplanner.Prelude.{
  ℕ, ◌+◌, ◌-◌, Bool, true, false, not, Option, none, some, List, [], ◌∷◌, if◌then◌else◌, length,
  get_elem?, ℤ, pos, negsuc, ◌+ℤ◌, ◌-ℤ◌, ltb_ℤ, eqb_ℤ, min_ℤ, max_ℤ,
}
use familyplanner.Kiosk.State.{lookup, is_empty}

-- `ovState`
pub data Panel : Type 0 where
  closed info screens : Panel

-- A `li` of the picker: its text, and whether it has the class `sel`.
pub record Item : Type 0 where
  pub text : String
  pub sel : Bool

pub record Overlay : Type 0 where
  pub panel : Panel
  pub sel : ℤ  -- `scrSel`
  pub ids : List String  -- `scrIds`
  pub items : List Item
  pub info_hidden : Bool
  pub screens_hidden : Bool

-- A script's object from ids to names, in the order of its keys.
pub keys : List (String × String) → List String
keys [] = []
keys ((k, v) ∷ m) = k ∷ keys m

-- `viewNames[id] || id`
pub item_text : List (String × String) → String → String
item_text names id = elim (lookup id names) [
  | none ↦ id
  | some name ↦ if is_empty name then id else name
]

pub items_from : List (String × String) → ℤ → ℕ → List String → List Item
items_from names sel i [] = []
items_from names sel i (id ∷ ids) =
    record { text = item_text names id; sel = eqb_ℤ (pos i) sel } ∷ items_from names sel (i + 1) ids

-- `renderScreens` where the page has the picker's list.
pub render_screens : List (String × String) → Overlay → Overlay
render_screens names o =
    let ids = keys names in
    let sel = if ltb_ℤ o.sel (pos (length ids)) then o.sel else pos (length ids - 1) in
    record o { sel = sel; ids = ids; items = items_from names sel 0 ids }

abbrev pub is_screens : Panel → Bool
is_screens closed = false
is_screens info = false
is_screens screens = true

abbrev pub is_info : Panel → Bool
is_info closed = false
is_info info = true
is_info screens = false

pub set_overlay : List (String × String) → Panel → Overlay → Overlay
set_overlay names p o =
    let o' = record o {
      panel = p;
      info_hidden = not (is_info p);
      screens_hidden = not (is_screens p);
    } in
    if is_screens p then render_screens names o' else o'

pub pick : ℤ → List String → Option String
pick (pos k) ids = elim (get_elem? ids k) [
  | none ↦ none
  | some id ↦ if is_empty id then none else some id
]
pick (negsuc k) ids = none

-- `scrIds[scrSel]`, if it is there and is no empty text.
pub selected : Overlay → Option String
selected o = pick o.sel o.ids

-- The new overlay, and the screen that `loadTransient` is called with.
pub load_selected_screen : List (String × String) → Overlay → Overlay × Option String
load_selected_screen names o = (set_overlay names closed o, selected o)

-- The keys that the overlays know; `shut` is Escape, and `other` any further key.
pub data Key : Type 0 where
  key_i key_o down up enter shut other : Key

-- The picker's own keys.
pub on_screens : List (String × String) → Key → Overlay → Overlay × Option String
on_screens names down s = (
  render_screens names (record s { sel = min_ℤ (pos (length s.ids) -ℤ pos 1) (s.sel +ℤ pos 1) }),
  none,
)
on_screens names up s =
    (render_screens names (record s { sel = max_ℤ (pos 0) (s.sel -ℤ pos 1) }), none)
on_screens names enter s = load_selected_screen names s
on_screens names shut s = (set_overlay names closed s, none)
on_screens names _ s = (s, none)

-- `i` and `o`
pub on_i : List (String × String) → Panel → Overlay → Overlay
on_i names closed s = set_overlay names info s
on_i names screens s = set_overlay names info s
on_i names info s = set_overlay names closed s

pub on_o : List (String × String) → Panel → Overlay → Overlay × Option String
on_o names info s = (set_overlay names screens (record s { sel = pos 0 }), none)
on_o names screens s = load_selected_screen names s
on_o names closed s = (s, none)

-- What the handler of keys does first. `none`: the key is left to the rest of the handler, or, for
-- `o` without an overlay, to the browser.
pub on_key : List (String × String) → Key → Panel → Overlay → Option (Overlay × Option String)
on_key names key_i p s = some (on_i names p s, none)
on_key names key_o closed s = none
on_key names key_o info s = some (on_o names info s)
on_key names key_o screens s = some (on_o names screens s)
on_key names k screens s = some (on_screens names k s)
on_key names shut info s = some (set_overlay names closed s, none)
on_key names _ _ s = none
