-- ===== src/Kiosk/Pip/Walk.antt =====
-- The corner's playlist is a ring.
use familyplanner.Prelude.{
  ℕ, ◌<◌, ◌≡◌, refl, ◌∙◌, ap, arith, Bool, true, false, not, ◌||◌, Option, none, some, List, [],
  ◌∷◌, length, get_elem?, ℤ, pos, ◌+ℤ◌, ◌-ℤ◌,
}
use familyplanner.Ring.{Ring, walk, walk_place, after_steps, forth_mod, back_mod}
use familyplanner.Kiosk.Pip.{
  Item, Pip, fetch, stop_players, clear_timer, wrap, turn, is_unlisted, rotate_unless, rotate,
  pip_next, pip_prev,
}
use familyplanner.Kiosk.Pip.Index.{wrap-lt, wrap_next, wrap_prev}

-- The corner shows the playlist `items`, and its index is in it.
pub record IsPlaying (items : List Item) (s : Pip) : Type 0 where
  pub listed : s.items ≡ items
  pub built : s.built ≡ true
  pub within : s.idx < length items

fetch-same :
    (o : Option Item) (s : Pip)
    → ((fetch o s).items ≡ s.items) × ((fetch o s).built ≡ s.built) × ((fetch o s).idx ≡ s.idx)
unfolding fetch
fetch-same none s = (refl, refl, refl)
fetch-same (some i) s = (refl, refl, refl)

listed_lem : (xs : List Item) (k : ℕ) → k < length xs → is_unlisted xs ≡ false
unfolding is_unlisted
listed_lem [] k h = elim h [ ]
listed_lem (x ∷ xs) k h = refl

rotate-IsPlaying :
    (i : ℤ) (items : List Item) (s : Pip)
    → IsPlaying items s
    → IsPlaying items (rotate i s) × ((rotate i s).idx ≡ wrap i (length items))
unfolding rotate rotate_unless turn stop_players clear_timer
rotate-IsPlaying i items s v =
    let k = wrap i (length s.items) in
    let t = stop_players (clear_timer (record s { idx = k })) in
    let f = fetch-same (get_elem? s.items k) t in
    let e : (not s.built || is_unlisted s.items) ≡ false =
      (let u = listed_lem items s.idx v.within in
        let l = v.listed in let b = v.built in rw (l, b, u) refl) in
    let l : length s.items ≡ length items = ap length v.listed in
    let w : wrap i (length s.items) ≡ wrap i (length items) = ap (wrap i) l in
    rw e (
      record {
        listed = f.0 ∙ v.listed;
        built = f.1 ∙ v.built;
        within =
            (let h = wrap-lt i (length items) (let x = v.within in omega arith) in
              let g = f.2 in omega (arith, w, h, g));
      },
      f.2 ∙ w,
    )

pub corner : List Item → Ring Pip
unfolding pip_next pip_prev
corner items = record {
  size = length items;
  place = λ s. s.idx;
  forth = pip_next;
  back = pip_prev;
  IsOn = IsPlaying items;
  place-lt = λ s v. v.within;
  forth-IsOn = λ s v. (rotate-IsPlaying (pos s.idx +ℤ pos 1) items s v).0;
  back-IsOn = λ s v. (rotate-IsPlaying (pos s.idx -ℤ pos 1) items s v).0;
  forth_place = λ s v.
      (rotate-IsPlaying (pos s.idx +ℤ pos 1) items s v).1
      ∙ wrap_next (length items) s.idx v.within
      ∙ forth_mod (length items) s.idx v.within;
  back_place = λ s v.
      (rotate-IsPlaying (pos s.idx -ℤ pos 1) items s v).1
      ∙ wrap_prev (length items) s.idx v.within
      ∙ back_mod (length items) s.idx v.within;
}

-- After any keys for the next and the previous view of the corner, in any order, the corner is at the
-- place that lies as many views further round the playlist as there were more of the former.
pub corner_walk :
    (items : List Item) (ds : List Bool) (s : Pip)
    → IsPlaying items s
    → (walk pip_next pip_prev ds s).idx ≡ after_steps (length items) s.idx ds
unfolding corner
corner_walk items ds s v = walk_place (corner items) ds s v
