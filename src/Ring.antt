-- ===== src/Ring.antt =====
-- A ring of places, with a step forth and a step back: the interface of all that goes round the ends of a
-- list, and what any sequence of steps comes to. The implementations are next to the code.
use familyplanner.Prelude.{
  ℕ, zero, suc, ◌+◌, ◌-◌, ◌*◌, ◌%◌, ◌<◌, ◌≡◌, sym, ◌∙◌, ap, Bool, true, false, if◌then◌else◌, ◌==◌,
  List, [], ◌∷◌, arith,
}
use native.Mathlib.Nat.{mod-eq_of_lt, mod-add-mod, add-mod_right, mod_self}
use native.Mathlib.Decide.{ℕ_discrete}

pub record Ring (S : Type 0) : Type 1 where
  pub size : ℕ
  pub place : S → ℕ
  pub forth : S → S
  pub back : S → S
  pub IsOn : S → Type 0
  pub place-lt : (s : S) → IsOn s → place s < size
  pub forth-IsOn : (s : S) → IsOn s → IsOn (forth s)
  pub back-IsOn : (s : S) → IsOn s → IsOn (back s)
  pub forth_place : (s : S) → IsOn s → place (forth s) ≡ (place s + 1) % size
  pub back_place : (s : S) → IsOn s → place (back s) ≡ (place s + (size - 1)) % size

-- Steps forth (`true`) and back.
abbrev pub forths : List Bool → ℕ
forths [] = 0
forths (true ∷ ds) = 1 + forths ds
forths (false ∷ ds) = forths ds

abbrev pub backs : List Bool → ℕ
backs [] = 0
backs (true ∷ ds) = backs ds
backs (false ∷ ds) = 1 + backs ds

module _ {S : Type 0} (forth back : S → S) where
  abbrev pub walk : List Bool → S → S
  walk [] s = s
  walk (true ∷ ds) s = walk ds (forth s)
  walk (false ∷ ds) s = walk ds (back s)

-- The place that is `k` before the steps.
abbrev pub after_steps : ℕ → ℕ → List Bool → ℕ
after_steps n k ds = (k + (forths ds + (n - 1) * backs ds)) % n

-- Only how many steps went each way counts, and only up to the size of the ring.
pub walk_place :
    {S : Type 0} (r : Ring S) (ds : List Bool) (s : S)
    → r.IsOn s
    → r.place (walk r.forth r.back ds s) ≡ after_steps r.size (r.place s) ds
walk_place r [] s on =
    let n = r.size in
    let l = r.place-lt s on in
    let e : r.place s + (0 + (n - 1) * 0) ≡ r.place s = omega arith in
    sym (ap (λ k. k % n) e ∙ mod-eq_of_lt l)
walk_place r (true ∷ ds) s on =
    let n = r.size in
    let x = forths ds + (n - 1) * backs ds in
    let e : r.place s + 1 + x ≡ r.place s + (1 + forths ds + (n - 1) * backs ds) = omega arith in
    walk_place r ds (r.forth s) (r.forth-IsOn s on)
    ∙ ap (λ k. (k + x) % n) (r.forth_place s on)
    ∙ mod-add-mod (r.place s + 1) n x
    ∙ ap (λ k. k % n) e
walk_place r (false ∷ ds) s on =
    let n = r.size in
    let x = forths ds + (n - 1) * backs ds in
    let e : r.place s + (n - 1) + x ≡ r.place s + (forths ds + (n - 1) * (1 + backs ds)) =
      omega arith in
    walk_place r ds (r.back s) (r.back-IsOn s on)
    ∙ ap (λ k. (k + x) % n) (r.back_place s on)
    ∙ mod-add-mod (r.place s + (n - 1)) n x
    ∙ ap (λ k. k % n) e

-- One step back, written as the code writes it.
pub back_mod : (n k : ℕ) → k < n → (if k == 0 then n - 1 else k - 1) ≡ (k + (n - 1)) % n
back_mod n zero h =
    let e : 0 + (n - 1) ≡ n - 1 = omega arith in
    let l : n - 1 < n = omega arith in sym (ap (λ t. t % n) e ∙ mod-eq_of_lt l)
back_mod n (suc k) h =
    let e : suc k + (n - 1) ≡ k + n = omega arith in
    let l : k < n = omega arith in
    let f : (if suc k == 0 then n - 1 else suc k - 1) ≡ k = ground arith in
    f ∙ sym (ap (λ t. t % n) e ∙ add-mod_right k n ∙ mod-eq_of_lt l)

-- And one forth.
pub forth_mod : (n k : ℕ) → k < n → (if k + 1 == n then 0 else k + 1) ≡ (k + 1) % n
forth_mod n k h = elim (ℕ_discrete (k + 1) n) [
  | yes e ↦ ground arith ∙ sym (ap (λ t. t % n) e ∙ mod_self n)
  | no ne ↦ ground arith ∙ sym (mod-eq_of_lt (omega arith))
]
