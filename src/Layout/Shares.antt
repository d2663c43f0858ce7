-- ===== src/Layout/Shares.antt =====
-- What a drag does to the weights.
use familyplanner.Prelude.{
  ℕ, ℤ, zero, suc, ◌+◌, ◌-◌, ◌*◌, ◌/◌, ◌<◌, ◌≤◌, ◌≡◌, sym, ◌∙◌, ap, arith, some,
}
use native.Mathlib.Nat.{
  div-mul-le_self, lt-div-mul-add, lt_of_mul-lt-mul_right, mul-le-mul_right, add-mul,
}
use familyplanner.Layout.{frac, portion}

-- A share of at least 8% and at most 92%.
record IsShare (n d : ℕ) : Type 0 where
  positive : 0 < d
  least : 8 * d ≤ 100 * n
  most : 100 * n ≤ 92 * d

frac-IsShare : (at start : ℤ) (px n d : ℕ) → frac at start px ≡ some (n, d) → IsShare n d
unfolding frac
frac-IsShare at start zero n d e = ground arith
frac-IsShare at start (suc px) n d e = ground arith

portion_near :
    (n d w : ℕ)
    → 0 < d
    → (2 * (portion n d w * d) ≤ 2 * (n * w) + d) × (2 * (n * w) < 2 * (portion n d w * d) + d)
unfolding portion
portion_near n d w h =
    let low = div-mul-le_self (2 * n * w + d) (2 * d) in
    let high : 2 * n * w + d < (2 * n * w + d) / (2 * d) * (2 * d) + 2 * d =
      lt-div-mul-add (omega arith) in
    (omega (arith, low), omega (arith, high))

-- Two weights for two panes that had `w` together: each at least 8% of it, and together `w`, all up to
-- the last of four decimals.
pub record IsFair (w a b : ℕ) : Type 0 where
  pub together : w ≤ a + b
  pub no_more : a + b ≤ w + 1
  pub first_least : 8 * w < 100 * a + 50
  pub second_least : 8 * w < 100 * b + 50

below : (a b d : ℕ) → 0 < d → a * d < b * d → a < b
below a b d h l = lt_of_mul-lt-mul_right d l

portion-IsFair : (n d w : ℕ) → IsShare n d → IsFair w (portion n d w) (portion (d - n) d w)
portion-IsFair n d w v =
    let h = v.positive in
    let one = portion_near n d w h in
    let two = portion_near (d - n) d w h in
    let a = portion n d w in
    let b = portion (d - n) d w in
    let k : n ≤ d = (let m = v.most in omega arith) in
    let whole : (d - n) * w + n * w ≡ d * w =
      sym (add-mul (d - n) n w) ∙ ap (λ t. t * w) (omega (arith, k)) in
    let least = mul-le-mul_right w v.least in
    let most = mul-le-mul_right w v.most in
    record {
      together =
          (let t : w < a + b + 1 = below w (a + b + 1) d h (omega (arith, whole, one.1, two.1)) in
            omega arith);
      no_more =
          (let t : a + b < w + 2 =
              below (a + b) (w + 2) d h (omega (arith, whole, one.0, two.0, h)) in
            omega arith);
      first_least = below (8 * w) (100 * a + 50) d h (omega (arith, least, one.1));
      second_least = below (8 * w) (100 * b + 50) d h (omega (arith, most, whole, two.1));
    }

-- Wherever the pointer is, both panes keep 8% of the weight that they had together, and together they
-- keep all of it, up to the last of the four decimals that are written.
pub resize-IsFair :
    (at start : ℤ) (px w n d : ℕ)
    → frac at start px ≡ some (n, d)
    → IsFair w (portion n d w) (portion (d - n) d w)
resize-IsFair at start px w n d e = portion-IsFair n d w (frac-IsShare at start px n d e)
