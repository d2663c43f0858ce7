-- ===== src/Kiosk/Pip/Index.antt =====
-- The index of the corner's playlist.
use familyplanner.Prelude.{
  ℕ, zero, suc, ◌+◌, ◌-◌, ◌-ℤ◌, ◌%◌, ◌<◌, ◌≡◌, refl, ◌∙◌, arith, if◌then◌else◌, ◌==◌, ℤ, pos,
  negsuc, ◌+ℤ◌, rem_ℤ, pos_part,
}
use native.Mathlib.Decide.{ℕ_discrete}
use native.Mathlib.Nat.{mod-eq_of_lt, mod-lt, mod_self, add-mod_right, mod-mod}
use familyplanner.Kiosk.Pip.{wrap}

rem-lt : (z : ℤ) (n : ℕ) → 0 < n → pos_part (rem_ℤ z n) < n
rem-lt (pos a) n h = mod-lt a h
rem-lt (negsuc a) n h = ground arith

-- The index always lies in the list.
pub wrap-lt : (i : ℤ) (n : ℕ) → 0 < n → wrap i n < n
unfolding wrap
wrap-lt i n h = rem-lt (rem_ℤ i n +ℤ pos n) n h

wrap-pos : (a n : ℕ) → wrap (pos a) n ≡ a % n
unfolding wrap
wrap-pos a n =
    let e : pos (a % n) +ℤ pos n ≡ pos (a % n + n) = ground arith in
    rw e (add-mod_right (a % n) n ∙ mod-mod a n)

mod_step : (n k : ℕ) → k < n → (k + 1) % n ≡ (if k + 1 == n then 0 else k + 1)
mod_step n k h = elim (ℕ_discrete (k + 1) n) [
  | yes e ↦ rw e (mod_self n ∙ ground arith)
  | no ne ↦ mod-eq_of_lt (omega arith) ∙ ground arith
]

pub wrap_next : (n k : ℕ) → k < n → wrap (pos k +ℤ pos 1) n ≡ (if k + 1 == n then 0 else k + 1)
wrap_next n k h =
    let e : pos k +ℤ pos 1 ≡ pos (k + 1) = ground arith in
    rw e (wrap-pos (k + 1) n ∙ mod_step n k h)

wrap_neg : (n : ℕ) → 0 < n → wrap (negsuc 0) n ≡ n - 1
unfolding wrap
wrap_neg zero h = elim h [ ]
wrap_neg (suc zero) h = refl
wrap_neg (suc (suc n)) h =
    let e : 1 % suc (suc n) ≡ 1 = mod-eq_of_lt (omega arith) in
    let f : rem_ℤ (negsuc 0) (suc (suc n)) +ℤ pos (suc (suc n)) ≡ pos (suc n) = ground (arith, e) in
    let g : suc n ≡ suc (suc n) - 1 = omega arith in rw f (mod-eq_of_lt (omega arith) ∙ g)

pub wrap_prev : (n k : ℕ) → k < n → wrap (pos k -ℤ pos 1) n ≡ (if k == 0 then n - 1 else k - 1)
wrap_prev n zero h = wrap_neg n h
wrap_prev n (suc k) h =
    let e : pos (suc k) -ℤ pos 1 ≡ pos k = ground arith in
    rw e (wrap-pos k n ∙ mod-eq_of_lt (omega arith) ∙ ground arith)
