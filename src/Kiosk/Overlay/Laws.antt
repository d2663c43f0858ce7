-- ===== src/Kiosk/Overlay/Laws.antt =====
-- What the overlays show, and what the picker loads.
use Prim.Native.String.{String}
use familyplanner.Prelude.{
  ℕ, ◌<◌, ◌≡◌, refl, true, false, not, Option, none, some, List, arith, length, ℤ, pos, negsuc,
  ◌+ℤ◌, ◌-ℤ◌, min_ℤ, max_ℤ, ◌≤ℤ◌,
}
use familyplanner.Kiosk.Overlay.{
  Panel, closed, info, screens, Overlay, render_screens, is_info, is_screens, set_overlay,
  load_selected_screen, Key, key_i, key_o, down, up, enter, shut, on_screens, on_i, on_o, on_key,
}

-- The two panels are shown as the state says, and the selection never lies past the last screen of a
-- list that has any.
pub record IsValid (s : Overlay) : Type 0 where
  pub info_shown : s.info_hidden ≡ not (is_info s.panel)
  pub screens_shown : s.screens_hidden ≡ not (is_screens s.panel)
  pub above : negsuc 0 ≤ℤ s.sel
  pub below : 0 < length s.ids → s.sel +ℤ pos 1 ≤ℤ pos (length s.ids)

module _ (names : List (String × String)) where
  set_overlay-IsValid :
      (p : Panel) (s : Overlay)
      → negsuc 0 ≤ℤ s.sel
      → (0 < length s.ids → s.sel +ℤ pos 1 ≤ℤ pos (length s.ids))
      → IsValid (set_overlay names p s)
  unfolding set_overlay render_screens
  set_overlay-IsValid closed s a b = ground arith
  set_overlay-IsValid info s a b = ground arith
  set_overlay-IsValid screens s a b = ground arith

  render_screens-IsValid :
      (s : Overlay)
      → s.info_hidden ≡ not (is_info s.panel)
      → s.screens_hidden ≡ not (is_screens s.panel)
      → negsuc 0 ≤ℤ s.sel
      → IsValid (render_screens names s)
  unfolding render_screens
  render_screens-IsValid s h k a = ground arith

  down_above :
      (n : ℕ) (sel : ℤ) → negsuc 0 ≤ℤ sel → negsuc 0 ≤ℤ min_ℤ (pos n -ℤ pos 1) (sel +ℤ pos 1)
  down_above n sel a = ground arith

  up_above : (sel : ℤ) → negsuc 0 ≤ℤ max_ℤ (pos 0) (sel -ℤ pos 1)
  up_above sel = ground arith

  on_screens-IsValid : (k : Key) (s : Overlay) → IsValid s → IsValid (on_screens names k s).0
  unfolding on_screens load_selected_screen
  on_screens-IsValid down s v =
      render_screens-IsValid
        (record s { sel = min_ℤ (pos (length s.ids) -ℤ pos 1) (s.sel +ℤ pos 1) }) v.info_shown
        v.screens_shown (down_above (length s.ids) s.sel v.above)
  on_screens-IsValid up s v =
      render_screens-IsValid (record s { sel = max_ℤ (pos 0) (s.sel -ℤ pos 1) }) v.info_shown
        v.screens_shown (up_above s.sel)
  on_screens-IsValid enter s v = set_overlay-IsValid closed s v.above v.below
  on_screens-IsValid shut s v = set_overlay-IsValid closed s v.above v.below
  on_screens-IsValid _ s v = v

  on_i-IsValid : (p : Panel) (s : Overlay) → IsValid s → IsValid (on_i names p s)
  unfolding on_i
  on_i-IsValid closed s v = set_overlay-IsValid info s v.above v.below
  on_i-IsValid info s v = set_overlay-IsValid closed s v.above v.below
  on_i-IsValid screens s v = set_overlay-IsValid info s v.above v.below

  open-IsValid :
      (s : Overlay) → IsValid s → IsValid (set_overlay names screens (record s { sel = pos 0 }))
  unfolding set_overlay
  open-IsValid s v =
      render_screens-IsValid
        (record s { panel = screens; sel = pos 0; info_hidden = true; screens_hidden = false }) refl
        refl (omega arith)

  on_o-IsValid : (p : Panel) (s : Overlay) → IsValid s → IsValid (on_o names p s).0
  unfolding on_o load_selected_screen
  on_o-IsValid closed s v = v
  on_o-IsValid info s v = open-IsValid s v
  on_o-IsValid screens s v = set_overlay-IsValid closed s v.above v.below

  -- `r` leaves the overlay valid, if the key was taken at all.
  abbrev pub Keeps : Option (Overlay × Option String) → Type 0
  Keeps none = Unit
  Keeps (some (s, _)) = IsValid s

  -- Every key, in every state of the overlays, keeps the panels shown as the state says and the
  -- selection within the list.
  pub on_key-IsValid : (k : Key) (p : Panel) (s : Overlay) → IsValid s → Keeps (on_key names k p s)
  unfolding on_key
  on_key-IsValid key_i p s v = on_i-IsValid p s v
  on_key-IsValid key_o closed s v = tt
  on_key-IsValid key_o info s v = on_o-IsValid info s v
  on_key-IsValid key_o screens s v = on_o-IsValid screens s v
  on_key-IsValid shut closed s v = tt
  on_key-IsValid shut info s v = set_overlay-IsValid closed s v.above v.below
  on_key-IsValid k screens s v = on_screens-IsValid k s v
  on_key-IsValid k _ s v = tt
