-- ===== src/Server/Rotation/Cursor.antt =====
-- Where the cursor is.
use familyplanner.Prelude.{
  ℕ, zero, suc, ◌+◌, ◌-◌, ◌%◌, ◌<◌, ◌≡◌, ◌≢◌, refl, sym, ap, ◌∙◌, Bool, true, false, Option, none,
  some, pos, List, [], ◌∷◌, length, get_elem?, lt-length_of_get_elem?, subst, ltb, leb, ◌==◌, arith,
  Bool-cases, inl, inr,
}
use native.Mathlib.Nat.{mod-lt}
use mathlib.Core.Option.{some-injective}
use familyplanner.Ring.{Ring, walk, walk_place, after_steps}
use familyplanner.Server.Rotation.{
  Item, State, in_range, current_if, current, next, prev, later, place_of, go_if, go_to,
}

later-found : (o : Option ℕ) (k : ℕ) → later o ≡ some k → (j : ℕ) × ((k ≡ suc j) × (o ≡ some j))
later-found none k h = cc h
later-found (some j) k h = (j, (let e : suc j ≡ k = some-injective _ _ h in sym e, refl))

place_of-found :
    (v : ℕ) (its : List Item) (k : ℕ)
    → place_of v its ≡ some k
    → (it : Item) × ((get_elem? its k ≡ some it) × (it.view ≡ v))
unfolding place_of
place_of-found v [] k h = cc h
place_of-found v (it ∷ its) k h = elim (Bool-cases (it.view == v)) [
  | inl e ↦
      let z : 0 ≡ k = some-injective _ _ (rw e at h) in
      (it, (ap (get_elem? (it ∷ its)) (sym z), ground (arith, e)))
  | inr e ↦
      let (j, (q, f)) = later-found (place_of v its) k (rw e at h) in
      let (x, (g, w)) = place_of-found v its j f in (x, (ap (get_elem? (it ∷ its)) q ∙ g, w))
]

current_if-found :
    (b k : ℕ) (s : State) (it : Item)
    → b ≡ 0
    → s.index ≡ k
    → get_elem? s.items k ≡ some it
    → (current_if b s).1 ≡ some it
unfolding current_if in_range
current_if-found (suc b) k s it o e h = absurd (omega arith)
current_if-found zero k s it o e h =
    let l = lt-length_of_get_elem? s.items k h in
    let z : (length s.items == 0) ≡ false = ground (arith, l) in
    let r : leb (length s.items) s.index ≡ false = ground (arith, l, e) in
    rw (z, r) (ap (get_elem? s.items) e ∙ h)

current-found :
    (k : ℕ) (s : State) (it : Item)
    → s.override ≡ 0
    → s.index ≡ k
    → get_elem? s.items k ≡ some it
    → (current s).1 ≡ some it
unfolding current
current-found k s it o e h = current_if-found s.override k s it o e h

go_if-shows :
    (v : ℕ) (o : Option ℕ) (s : State)
    → v ≢ 0
    → place_of v s.items ≡ o
    → (it : Item) × (((current (go_if v o s)).1 ≡ some it) × (it.view ≡ v))
unfolding go_if current current_if
go_if-shows v (some k) s z h =
    let (it, (g, w)) = place_of-found v s.items k h in
    (it, (current-found k (record s { index = k; override = 0 }) it refl refl g, w))
go_if-shows zero none s z h = absurd (z refl)
go_if-shows (suc v) none s z h = (record { view = suc v; dwell = pos 0 }, (refl, refl))

-- After a `Goto` the view is the one to show, whether it is in the playlist or not, and whatever came before.
pub goto_shows :
    (v : ℕ) (s : State)
    → v ≢ 0
    → (it : Item) × (((current (go_to v s)).1 ≡ some it) × (it.view ≡ v))
unfolding go_to
goto_shows v s z = go_if-shows v (place_of v s.items) s z refl

-- The playlist, with the cursor in it.
pub record IsOn (its : List Item) (s : State) : Type 0 where
  pub listed : s.items ≡ its
  pub within : s.index < length its

next-lem : (its : List Item) (s : State) → IsOn its s → (next s).index ≡ (s.index + 1) % length its
unfolding next
next-lem its s v =
    let n : length s.items ≡ length its = ap length v.listed in
    let t : ltb 0 (length s.items) ≡ true = ground (arith, n, v.within) in
    rw t (ap (λ m. (s.index + 1) % m) n)

prev-lem :
    (its : List Item) (s : State)
    → IsOn its s
    → (prev s).index ≡ (s.index + (length its - 1)) % length its
unfolding prev
prev-lem its s v =
    let n : length s.items ≡ length its = ap length v.listed in
    let t : ltb 0 (length s.items) ≡ true = ground (arith, n, v.within) in
    let e : s.index + length s.items - 1 ≡ s.index + (length its - 1) =
      omega (arith, n, v.within) in
    rw t (ap (λ m. (s.index + length s.items - 1) % m) n ∙ ap (λ m. m % length its) e)

IsOn-index :
    (its : List Item) (s t : State) (k : ℕ)
    → IsOn its s
    → t.items ≡ s.items
    → t.index ≡ k % length its
    → IsOn its t
IsOn-index its s t k v i e = record {
  listed = i ∙ v.listed;
  within =
      let z : length its ≢ 0 = (let l = v.within in omega arith) in
      subst (λ m. m < length its) (sym e) (mod-lt k (let l = v.within in omega arith));
}

pub playlist : List Item → Ring State
unfolding next prev
playlist its = record {
  size = length its;
  place = λ s. s.index;
  forth = next;
  back = prev;
  IsOn = IsOn its;
  place-lt = λ s v. v.within;
  forth-IsOn = λ s v. IsOn-index its s (next s) (s.index + 1) v refl (next-lem its s v);
  back-IsOn =
      λ s v. IsOn-index its s (prev s) (s.index + (length its - 1)) v refl (prev-lem its s v);
  forth_place = λ s v. next-lem its s v;
  back_place = λ s v. prev-lem its s v;
}

-- After any `Next` and `Prev`, in any order, the cursor is as many places further round the playlist as there
-- were more of the former.
pub rotation_walk :
    (its : List Item) (ds : List Bool) (s : State)
    → IsOn its s
    → (walk next prev ds s).index ≡ after_steps (length its) s.index ds
unfolding playlist
rotation_walk its ds s v = walk_place (playlist its) ds s v
