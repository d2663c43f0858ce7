-- ===== src/Kiosk/Slideshow/Shuffle.antt =====
-- The shuffle rearranges its list, and its loop draws one number for each place but the first.
use mathlib.Core.List.Perm
use familyplanner.Prelude.{
  ℕ, zero, suc, ◌+◌, ◌-◌, ◌*◌, ◌%◌, ◌≡◌, refl, ◌∙◌, Option, none, some, List, [], ◌∷◌, Perm, arith,
  length, get_elem?, set, get_elem?-set_self, get_elem?-set_ne, lt-length_of_get_elem?,
}
use native.Mathlib.Decide.{ℕ_discrete}
use familyplanner.Kiosk.Slideshow.{exchange, swap, shuffle_from, fp_shuffle}

module _ {ℓ} {A : Type ℓ} where
  set-perm :
      (xs : List A) (i : ℕ) (x y : A) → get_elem? xs i ≡ some x → Perm (x ∷ set xs i y) (y ∷ xs)
  set-perm [] i x y e = cc
  set-perm (z ∷ xs) zero x y e = let p : z ≡ x = cc in rw p (Perm.swap y x xs)
  set-perm (z ∷ xs) (suc i) x y e =
      Perm.trans (Perm.swap z x (set xs i y))
        (Perm.trans (Perm.cons z (set-perm xs i x y e)) (Perm.swap y z xs))

  after_set :
      (xs : List A) (i j : ℕ) (x y : A)
      → get_elem? xs i ≡ some x
      → get_elem? xs j ≡ some y
      → get_elem? (set xs i y) j ≡ some y
  after_set xs i j x y hi hj = elim (ℕ_discrete i j) [
    | yes e ↦ rw (← e) (get_elem?-set_self xs i y (lt-length_of_get_elem? xs i hi))
    | no n ↦ get_elem?-set_ne xs i j y n ∙ hj
  ]

  exchange-perm :
      (x? y? : Option A) (xs : List A) (i j : ℕ)
      → get_elem? xs i ≡ x?
      → get_elem? xs j ≡ y?
      → Perm (exchange x? y? xs i j) xs
  unfolding exchange
  exchange-perm none y? xs i j hi hj = Perm.refl xs
  exchange-perm (some x) none xs i j hi hj = Perm.refl xs
  exchange-perm (some x) (some y) xs i j hi hj =
      Perm.cons_inv (
        Perm.trans (set-perm (set xs i y) j y x (after_set xs i j x y hi hj))
          (set-perm xs i x y hi))

  swap-perm : (xs : List A) (i j : ℕ) → Perm (swap xs i j) xs
  unfolding swap
  swap-perm xs i j = exchange-perm (get_elem? xs i) (get_elem? xs j) xs i j refl refl

  shuffle_from-perm : (i seed : ℕ) (xs : List A) → Perm (shuffle_from i seed xs).0 xs
  unfolding shuffle_from
  shuffle_from-perm zero seed xs = Perm.refl xs
  shuffle_from-perm (suc i) seed xs =
      let j = (suc i * 2654435761 + seed) % (suc i + 1) in
      Perm.trans (shuffle_from-perm i (seed + 1) (swap xs (suc i) j)) (swap-perm xs (suc i) j)

  shuffle_from-seed : (i seed : ℕ) (xs : List A) → (shuffle_from i seed xs).1 ≡ seed + i
  unfolding shuffle_from
  shuffle_from-seed zero seed xs = omega arith
  shuffle_from-seed (suc i) seed xs = shuffle_from-seed i (seed + 1) _ ∙ (omega arith)

  -- The shuffle keeps every element, as often as it was there, and moves the script's seed on by one
  -- for each place of the list but the first.
  pub fp_shuffle-perm :
      (seed : ℕ) (xs : List A)
      → Perm (fp_shuffle seed xs).0 xs × ((fp_shuffle seed xs).1 ≡ seed + (length xs - 1))
  unfolding fp_shuffle
  fp_shuffle-perm seed xs =
      (shuffle_from-perm (length xs - 1) seed xs, shuffle_from-seed (length xs - 1) seed xs)
