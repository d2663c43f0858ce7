-- ===== src/Kiosk/Manual/Index.antt =====
-- Which widget the focus moves to.
use familyplanner.Prelude.{
  ℕ, zero, suc, ◌+◌, ◌-◌, ◌%◌, ◌<◌, ◌≡◌, refl, ◌∙◌, ap, if◌then◌else◌, arith, ℤ, pos, negsuc, ◌+ℤ◌,
  ◌-ℤ◌, ◌≤ℤ◌, ◌==◌, inl, inr, ◌⊎◌,
}
use native.Mathlib.Decide.{ℕ_discrete}
use native.Mathlib.Nat.{mod-eq_of_lt, mod-lt, mod_self}
use familyplanner.Kiosk.Manual.{moved, next_idx}

succ_ℤ : (k : ℕ) → pos k +ℤ pos 1 ≡ pos (k + 1)
succ_ℤ k = ground arith

pred_ℤ : (k : ℕ) → pos (suc k) +ℤ negsuc 0 ≡ pos k
pred_ℤ k = ground arith

last_ℤ : (n : ℕ) → 0 < n → pos n -ℤ pos 1 ≡ pos (n - 1)
last_ℤ n h = ground arith

idx_none :
    (n m : ℕ)
    → 0 < n
    → (next_idx (pos 1) n (negsuc m) ≡ pos 0) × (next_idx (negsuc 0) n (negsuc m) ≡ pos (n - 1))
unfolding next_idx moved
idx_none n m h = (refl, rw (last_ℤ n h))

pub idx_right : (n k : ℕ) → k < n → next_idx (pos 1) n (pos k) ≡ pos ((k + 1) % n)
unfolding next_idx moved
idx_right n k h = rw (succ_ℤ k)

pub idx_left :
    (n k : ℕ) → k < n → next_idx (negsuc 0) n (pos k) ≡ pos (if k == 0 then n - 1 else k - 1)
unfolding next_idx moved
idx_left zero k h = elim h [ ]
idx_left (suc zero) zero h = refl
idx_left (suc (suc n)) zero h =
    let e : 1 % suc (suc n) ≡ 1 = mod-eq_of_lt (omega arith) in rw e (ground arith)
idx_left (suc n) (suc k) h = rw (pred_ℤ k) (ap pos (mod-eq_of_lt (omega arith) ∙ ground arith))

-- The focus after a step from none is the first or the last widget, and from a widget it is the next
-- or the previous one, round the ends.
pub next_idx_lem :
    (n k m : ℕ)
    → k < n
    → (next_idx (pos 1) n (negsuc m) ≡ pos 0)
      × (next_idx (negsuc 0) n (negsuc m) ≡ pos (n - 1))
      × (next_idx (pos 1) n (pos k) ≡ pos ((k + 1) % n))
      × (next_idx (negsuc 0) n (pos k) ≡ pos (if k == 0 then n - 1 else k - 1))
next_idx_lem n k m h = (
  (idx_none n m (omega arith)).0,
  (idx_none n m (omega arith)).1,
  idx_right n k h,
  idx_left n k h,
)

mod_step : (n k : ℕ) → k < n → (k + 1) % n ≡ (if k + 1 == n then 0 else k + 1)
mod_step n k h = elim (ℕ_discrete (k + 1) n) [
  | yes e ↦ rw e (mod_self n ∙ ground arith)
  | no ne ↦ mod-eq_of_lt (omega arith) ∙ ground arith
]

-- A step to one side and a step back end at the widget where the focus was.
pub next_idx_inverse :
    (n k : ℕ)
    → k < n
    → (next_idx (negsuc 0) n (next_idx (pos 1) n (pos k)) ≡ pos k)
      × (next_idx (pos 1) n (next_idx (negsuc 0) n (pos k)) ≡ pos k)
next_idx_inverse n k h = (there, back)
  where
    there : next_idx (negsuc 0) n (next_idx (pos 1) n (pos k)) ≡ pos k
    there = rw (idx_right n k h) (
        idx_left n ((k + 1) % n) (mod-lt (k + 1) (omega arith))
        ∙ ap pos (ground (arith, mod_step n k)))

    back : next_idx (pos 1) n (next_idx (negsuc 0) n (pos k)) ≡ pos k
    back = rw (idx_left n k h) (
        idx_right n (if k == 0 then n - 1 else k - 1) (ground arith)
        ∙ ap pos (mod_step n (if k == 0 then n - 1 else k - 1) (ground arith) ∙ ground arith))

abbrev pub Delta : ℤ → Type 0
Delta d = (d ≡ pos 1) ⊎ (d ≡ negsuc 0)

pub next_idx_bounds :
    (delta : ℤ) (n : ℕ) (idx : ℤ)
    → 0 < n
    → Delta delta
    → idx +ℤ pos 1 ≤ℤ pos n
    → (negsuc 0 ≤ℤ next_idx delta n idx) × (next_idx delta n idx +ℤ pos 1 ≤ℤ pos n)
next_idx_bounds delta n (negsuc m) p (inl d) b = rw (d, (idx_none n m p).0) (omega arith)
next_idx_bounds delta n (negsuc m) p (inr d) b = rw (d, (idx_none n m p).1) (ground arith)
next_idx_bounds delta n (pos k) p (inl d) b =
    rw (d, idx_right n k (ground arith)) (ground (arith, mod-lt (k + 1) p))
next_idx_bounds delta n (pos k) p (inr d) b = rw (d, idx_left n k (ground arith)) (ground arith)
