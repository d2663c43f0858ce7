-- ===== src/Preview/Round.antt =====
-- A cell of the preview goes to its bottom and back, for ever.
use familyplanner.Prelude.{
  ℕ, zero, suc, ◌+◌, ◌-◌, ◌*◌, ◌<◌, ◌≤◌, ◌≡◌, refl, ◌∙◌, ap, subst, arith, Bool, true, false, some,
}
use familyplanner.Preview.{Cell, moved_top, turn, tick_if, tick, set_up}

pub ticks : ℕ → ℕ → Cell → Cell
ticks zero over c = c
ticks (suc n) over c = ticks n over (tick over c)

ticks-add : (m n over : ℕ) (c : Cell) → ticks (m + n) over c ≡ ticks n over (ticks m over c)
unfolding ticks
ticks-add zero n over c = let e : 0 + n ≡ n = omega arith in ap (λ k. ticks k over c) e
ticks-add (suc m) n over c =
    let e : suc m + n ≡ suc (m + n) = omega arith in
    ap (λ k. ticks k over c) e ∙ ticks-add m n over (tick over c)

ticks-one : (over : ℕ) (c : Cell) → ticks 1 over c ≡ tick over c
unfolding ticks
ticks-one over c = refl

abbrev at : ℕ → Bool → ℕ → Cell
at top down pause = record { top = top; down = down; pause = pause }

rest : (n over top : ℕ) (b : Bool) → ticks n over (at top b n) ≡ at top b 0
unfolding ticks tick tick_if
rest zero over top b = refl
rest (suc n) over top b = rest n over top b

-- One step of the way, and one that reaches the end.
tick-down : (over top : ℕ) → top + 1 < over → tick over (at top true 0) ≡ at (top + 1) true 0
unfolding tick tick_if turn moved_top
tick-down over top h = ground arith

tick-up : (over top : ℕ) → 1 < top → top ≤ over → tick over (at top false 0) ≡ at (top - 1) false 0
unfolding tick tick_if turn moved_top
tick-up over top h l = ground arith

tick-bottom : (over top : ℕ) → top + 1 ≡ over → tick over (at top true 0) ≡ at over false 24
unfolding tick tick_if turn moved_top
tick-bottom over top h = ground arith

tick-top : (over : ℕ) → 1 < over → tick over (at 1 false 0) ≡ at 0 true 24
unfolding tick tick_if turn moved_top
tick-top over h = ground arith

go_down : (n over top : ℕ) → top + n < over → ticks n over (at top true 0) ≡ at (top + n) true 0
unfolding ticks
go_down zero over top h = ap (λ k. at k true 0) (omega arith)
go_down (suc n) over top h =
    ap (ticks n over) (tick-down over top (omega arith))
    ∙ go_down n over (top + 1) (omega arith)
    ∙ ap (λ k. at k true 0) (omega arith)

go_up :
    (n over top : ℕ) → n < top → top ≤ over → ticks n over (at top false 0) ≡ at (top - n) false 0
unfolding ticks
go_up zero over top h l = ap (λ k. at k false 0) (omega arith)
go_up (suc n) over top h l =
    ap (ticks n over) (tick-up over top (omega arith) l)
    ∙ go_up n over (top - 1) (omega arith) (omega arith)
    ∙ ap (λ k. at k false 0) (omega arith)

-- 24 ticks of rest, the way, and its last tick.
to_bottom : (k : ℕ) → ticks (24 + (k + 1)) (k + 1) (at 0 true 24) ≡ at (k + 1) false 24
to_bottom k =
    ticks-add 24 (k + 1) (k + 1) (at 0 true 24)
    ∙ ap (ticks (k + 1) (k + 1)) (rest 24 (k + 1) 0 true)
    ∙ ticks-add k 1 (k + 1) (at 0 true 0)
    ∙ ap (ticks 1 (k + 1)) (go_down k (k + 1) 0 (omega arith))
    ∙ ticks-one (k + 1) (at (0 + k) true 0)
    ∙ tick-bottom (k + 1) (0 + k) (omega arith)

to_top : (k : ℕ) → 1 ≤ k → ticks (24 + (k + 1)) (k + 1) (at (k + 1) false 24) ≡ at 0 true 24
to_top k h =
    ticks-add 24 (k + 1) (k + 1) (at (k + 1) false 24)
    ∙ ap (ticks (k + 1) (k + 1)) (rest 24 (k + 1) (k + 1) false)
    ∙ ticks-add k 1 (k + 1) (at (k + 1) false 0)
    ∙ ap (ticks 1 (k + 1))
        (go_up k (k + 1) (k + 1) (omega arith) (omega arith) ∙ ap (λ j. at j false 0) (omega arith))
    ∙ ticks-one (k + 1) (at 1 false 0)
    ∙ tick-top (k + 1) (omega arith)

made : (over : ℕ) (c : Cell) → set_up over ≡ some c → (4 ≤ over) × (c ≡ at 0 true 24)
unfolding set_up
made over c e = ground arith

round :
    (over : ℕ)
    → 4 ≤ over
    → (ticks (24 + over) over (at 0 true 24) ≡ at over false 24)
      × (ticks (2 * (24 + over)) over (at 0 true 24) ≡ at 0 true 24)
round over h =
    let k = over - 1 in
    let e : k + 1 ≡ over = omega arith in
    let two : 2 * (24 + over) ≡ 24 + over + (24 + over) = omega arith in
    let down : ticks (24 + over) over (at 0 true 24) ≡ at over false 24 =
      subst (λ o. ticks (24 + o) o (at 0 true 24) ≡ at o false 24) e (to_bottom k) in
    let up : ticks (24 + over) over (at over false 24) ≡ at 0 true 24 =
      subst (λ o. ticks (24 + o) o (at o false 24) ≡ at 0 true 24) e (to_top k (omega arith)) in
    (
      down,
      ap (λ n. ticks n over (at 0 true 24)) two
          ∙ ticks-add (24 + over) (24 + over) over (at 0 true 24)
          ∙ ap (ticks (24 + over) over) down
          ∙ up,
    )

-- A cell that the preview scrolls, with content that overflows by `over`, shows the last line after
-- `24 + over` ticks of the interval, where it rests, and is back where it began after twice as many, so
-- that it goes to the bottom and back for ever.
pub preview_round :
    (over : ℕ) (c : Cell)
    → set_up over ≡ some c
    → (ticks (24 + over) over c ≡ record { top = over; down = false; pause = 24 })
      × (ticks (2 * (24 + over)) over c ≡ c)
preview_round over c e = let m = made over c e in rw m.1 (round over m.0)
