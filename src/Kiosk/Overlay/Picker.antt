-- ===== src/Kiosk/Overlay/Picker.antt =====
-- The picker loads the screen that it marks.
use Prim.Native.String.{String}
use familyplanner.Prelude.{
  ℕ, zero, suc, ◌+◌, ◌<◌, ◌≡◌, refl, sym, ◌∙◌, ap, true, false, Option, none, some, List, [], ◌∷◌,
  arith, length, get_elem?, ℤ, pos, eqb_ℤ, replicate, lt-length_of_get_elem?,
}
use familyplanner.Kiosk.State.{is_empty}
use familyplanner.Kiosk.Overlay.{
  closed, screens, Item, Overlay, keys, items_from, render_screens, set_overlay, pick, selected,
  load_selected_screen, Key, key_i, key_o, down, enter, on_screens, on_i, on_o, on_key,
}

-- The list as it is drawn: the item at `k` is marked exactly if it is the selected one.
items_from-sel :
    (names : List (String × String)) (sel : ℤ) (j k : ℕ) (ids : List String) (it : Item)
    → get_elem? (items_from names sel j ids) k ≡ some it
    → it.sel ≡ eqb_ℤ (pos (j + k)) sel
unfolding items_from
items_from-sel names sel j k [] it e = cc
items_from-sel names sel j zero (id ∷ ids) it e = ground arith
items_from-sel names sel j (suc k) (id ∷ ids) it e =
    items_from-sel names sel (j + 1) k ids it e ∙ ap (λ n. eqb_ℤ (pos n) sel) (omega arith)

same_ℤ : (a b : ℤ) → eqb_ℤ a b ≡ true → b ≡ a
same_ℤ a b e = ground arith

-- Once the list is drawn, an item that is marked is the one whose screen Enter or `o` loads.
pub marked_is_selected :
    (names : List (String × String)) (s : Overlay) (k : ℕ) (it : Item)
    → get_elem? (render_screens names s).items k ≡ some it
    → it.sel ≡ true
    → selected (render_screens names s) ≡ pick (pos k) (keys names)
unfolding render_screens selected
marked_is_selected names s k it e m =
    let sel : ℤ = (render_screens names s).sel in
    let here : eqb_ℤ (pos (0 + k)) sel ≡ true =
      sym (items_from-sel names sel 0 k (keys names) it e) ∙ m in
    ap (λ t. pick t (keys names)) (same_ℤ (pos (0 + k)) sel here ∙ ap pos (omega arith))

module _ (names : List (String × String)) where
  -- One press, where a key that the overlays do not take changes nothing, and the screen it loads.
  pub press : Key → Overlay → Overlay × Option String
  press k s = elim (on_key names k s.panel s) [ none ↦ (s, none) | some r ↦ r ]

  pub presses : List Key → Overlay → Overlay
  presses [] s = s
  presses (k ∷ ks) s = presses ks (press k s).0

  record Picking (j : ℕ) (s : Overlay) : Type 0 where
    is_open : s.panel ≡ screens
    at : s.sel ≡ pos j
    listed : s.ids ≡ keys names

  press-down :
      (j : ℕ) (s : Overlay)
      → Picking j s
      → j + 1 < length (keys names)
      → Picking (j + 1) (press down s).0
  unfolding press on_key on_screens render_screens
  press-down j s p h = ground arith

  presses-down :
      (k j : ℕ) (s : Overlay)
      → Picking j s
      → j + k < length (keys names)
      → Picking (j + k) (presses (replicate k down) s)
  unfolding presses
  presses-down zero j s p h = record {
    is_open = p.is_open;
    at = p.at ∙ ap pos (omega arith);
    listed = p.listed;
  }
  presses-down (suc k) j s p h =
      let e : j + 1 + k ≡ j + suc k = omega arith in
      rw e at
        (presses-down k (j + 1) (press down s).0 (press-down j s p (omega arith)) (omega arith))

  opened : (s : Overlay) → s.panel ≡ closed → Picking 0 (presses (key_i ∷ key_o ∷ []) s)
  unfolding presses press on_key on_i on_o set_overlay render_screens
  opened s c = ground arith

  chosen :
      (j : ℕ) (s : Overlay) (id : String)
      → Picking j s
      → get_elem? (keys names) j ≡ some id
      → is_empty id ≡ false
      → selected s ≡ some id
  unfolding selected pick
  chosen j s id p e ne = ground arith

  load :
      (j : ℕ) (s : Overlay) (id : String)
      → Picking j s
      → get_elem? (keys names) j ≡ some id
      → is_empty id ≡ false
      → ((press enter s).1 ≡ some id)
        × ((press key_o s).1 ≡ some id)
        × ((press enter s).0.panel ≡ closed)
        × ((press key_o s).0.panel ≡ closed)
  unfolding press on_key on_screens on_o load_selected_screen set_overlay
  load j s id p e ne = ground (arith, chosen j s id)

  -- From no overlay, `i`, `o`, then Down `j` times, then Enter or `o`, load the screen at place `j` of
  -- the map of names, and leave no overlay.
  pub picker_loads :
      (j : ℕ) (s : Overlay) (id : String)
      → s.panel ≡ closed
      → get_elem? (keys names) j ≡ some id
      → is_empty id ≡ false
      → let t = presses (key_i ∷ key_o ∷ replicate j down) s in
        ((press enter t).1 ≡ some id)
        × ((press key_o t).1 ≡ some id)
        × ((press enter t).0.panel ≡ closed)
        × ((press key_o t).0.panel ≡ closed)
  unfolding presses
  picker_loads j s id c e ne =
      let k : 0 + j < length (keys names) =
        omega (arith, lt-length_of_get_elem? (keys names) j e) in
      let z : 0 + j ≡ j = omega arith in
      let p = presses-down j 0 (presses (key_i ∷ key_o ∷ []) s) (opened s c) k in
      load j (presses (replicate j down) (presses (key_i ∷ key_o ∷ []) s)) id (rw z at p) e ne

-- The open picker takes every key.
pub on_key-takes :
    (names : List (String × String)) (k : Key) (s : Overlay)
    → (r : Overlay × Option String) × (on_key names k screens s ≡ some r)
unfolding on_key
on_key-takes names key_i s = (_, refl)
on_key-takes names key_o s = (_, refl)
on_key-takes names k s = (_, refl)
