-- ===== src/Server/Cache/Cap.antt =====
-- The time to live that a widget has by its sources.
use familyplanner.Prelude.{
  ℕ, zero, suc, ◌≤◌, ◌<◌, ◌≡◌, refl, ◌∙◌, false, Option, List, [], ◌∷◌, ltb, ◌==◌, ℤ, pos, negsuc,
  ◌⊎◌, arith, Bool-cases, inl, inr,
}
use familyplanner.Server.Cache.{
  global_refresh_interval, interval_of, best_of, cap_from, refresh_cap,
}

-- The smallest interval so far, of intervals that are not 0.
best-le : (iv best : ℕ) → 0 < iv → best_of iv best ≤ iv
unfolding best_of
best-le iv best h = ground arith

best-kept : (iv best : ℕ) → 0 < iv → 0 < best → best_of iv best ≤ best
unfolding best_of
best-kept iv best h k = ground arith

best-pos : (iv best : ℕ) → 0 < iv → 0 < best_of iv best
unfolding best_of
best-pos iv best h = ground arith

interval-pos : (g : ℕ) (s : ℤ) → 0 < g → 0 < interval_of g s
unfolding interval_of
interval-pos g (pos zero) h = h
interval-pos g (pos (suc n)) h = omega arith
interval-pos g (negsuc n) h = h

best-either : (iv best : ℕ) → (best_of iv best ≡ iv) ⊎ ((best_of iv best ≡ best) × (0 < best))
unfolding best_of
best-either iv zero = inl (ground arith)
best-either iv (suc n) =
    let z : (suc n == 0) ≡ false = ground arith in
    elim (Bool-cases (ltb iv (suc n))) [
      | inl e ↦ inl (rw (z, e) refl)
      | inr e ↦ inr (rw (z, e) refl, omega arith)
    ]

-- No source has a shorter interval.
abbrev pub IsWithin : ℕ → ℕ → List ℤ → Type 0
IsWithin g cap [] = Unit
IsWithin g cap (s ∷ ss) = (cap ≤ interval_of g s) × IsWithin g cap ss

-- It is the interval of a source.
abbrev pub IsAmong : ℕ → ℕ → List ℤ → Type 0
IsAmong g cap [] = ⊥
IsAmong g cap (s ∷ ss) = (cap ≡ interval_of g s) ⊎ IsAmong g cap ss

-- The loop, begun with an interval that is not 0.
cap_from-least :
    (g best : ℕ) (ss : List ℤ)
    → 0 < g
    → 0 < best
    → (0 < cap_from g best ss) × ((cap_from g best ss ≤ best) × IsWithin g (cap_from g best ss) ss)
unfolding cap_from
cap_from-least g best [] h k = (k, (omega arith, tt))
cap_from-least g best (s ∷ ss) h k =
    let p = interval-pos g s h in
    let (a, (b, c)) =
      cap_from-least g (best_of (interval_of g s) best) ss h (best-pos (interval_of g s) best p) in
    (
      a,
      (
        omega (arith, b, best-kept (interval_of g s) best p k),
        (omega (arith, b, best-le (interval_of g s) best p), c),
      ),
    )

cap_from-IsAmong :
    (g best : ℕ) (ss : List ℤ) → (cap_from g best ss ≡ best) ⊎ IsAmong g (cap_from g best ss) ss
unfolding cap_from
cap_from-IsAmong g best [] = inl refl
cap_from-IsAmong g best (s ∷ ss) = elim (cap_from-IsAmong g (best_of (interval_of g s) best) ss) [
  | inr a ↦ inr (inr a)
  | inl e ↦ elim (best-either (interval_of g s) best) [
    | inl a ↦ inr (inl (e ∙ a))
    | inr (a, k) ↦ inl (e ∙ a)
  ]
]

first-best : (iv : ℕ) → best_of iv 0 ≡ iv
unfolding best_of
first-best iv = refl

global-pos : (o : Option ℤ) → 0 < global_refresh_interval o
unfolding global_refresh_interval
global-pos o = ground arith

-- For a widget with sources, whatever the setting is, the time between two refreshes is the shortest interval
-- of its sources, where a source without one has the global interval; and it is not 0.
pub cap_is_least :
    (o : Option ℤ) (s : ℤ) (ss : List ℤ)
    → let g = global_refresh_interval o in
      let cap = refresh_cap g (s ∷ ss) in
      (0 < cap) × (IsWithin g cap (s ∷ ss) × IsAmong g cap (s ∷ ss))
unfolding refresh_cap cap_from
cap_is_least o s ss =
    let g = global_refresh_interval o in
    let p = interval-pos g s (global-pos o) in
    let q : 0 < best_of (interval_of g s) 0 = best-pos (interval_of g s) 0 p in
    let (a, (b, c)) = cap_from-least g (best_of (interval_of g s) 0) ss (global-pos o) q in
    (
      a,
      (
        (omega (arith, b, first-best (interval_of g s)), c),
        elim (cap_from-IsAmong g (best_of (interval_of g s) 0) ss) [
          | inl e ↦ inl (e ∙ first-best (interval_of g s))
          | inr e ↦ inr e
        ],
      ),
    )
