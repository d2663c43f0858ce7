-- ===== src/Kiosk/Scroll/Laws.antt =====
-- Where the automatic scroll is, at every frame.
use familyplanner.Prelude.{
  ℕ, ◌+◌, ◌-◌, ◌*◌, ◌%◌, ◌<◌, ◌≤◌, ◌≡◌, refl, ◌∙◌, ap, Bool, true, false, some, arith, List, [],
  ◌∷◌,
}
use familyplanner.Kiosk.Scroll.{Cell, position, started, frame, setup_cell_scroll}

mul-le_left : (o a b : ℕ) → a ≤ b → o * a ≤ o * b
mul-le_left o a b h = grind arith

position-le : (cycle over e : ℕ) → position cycle over e ≤ over * (38 * cycle)
unfolding position
position-le cycle over e = ground (
  arith,
  mul-le_left over (100 * e - 12 * cycle) (38 * cycle),
  mul-le_left over (38 * cycle - (100 * e - 62 * cycle)) (38 * cycle),
)

-- The script's way up mirrors its way down, both outside the hold at the top: at two moments that
-- lie equally far from the middle of the hold at the bottom the cell shows the same position.
pub position_mirror :
    (cycle over e e' : ℕ)
    → 100 * e + 100 * e' ≡ 112 * cycle
    → e ≤ cycle
    → e' ≤ cycle
    → position cycle over e ≡ position cycle over e'
unfolding position
position_mirror cycle over e e' h k k' = ground arith

mod_of_round : (k n e : ℕ) → e < n → (k * n + e) % n ≡ e
mod_of_round k n e h = grind arith

at_top : (cycle over e : ℕ) → 100 * e < 12 * cycle → position cycle over e ≡ 0
unfolding position
at_top cycle over e h = ground arith

at_bottom :
    (cycle over e : ℕ)
    → 50 * cycle ≤ 100 * e
    → 100 * e < 62 * cycle
    → position cycle over e ≡ over * (38 * cycle)
unfolding position
at_bottom cycle over e h k = ground arith

frame-top :
    (cycle k e s : ℕ) (c : Cell)
    → e < cycle
    → c.attached ≡ true
    → c.frozen ≡ false
    → 4 ≤ c.over
    → c.start ≡ some s
    → (frame cycle (s + (k * cycle + e)) c).top ≡ position cycle c.over e
unfolding frame
frame-top cycle k e s c h a f o b =
    let m : (s + (k * cycle + e) - s) % cycle ≡ e =
      ap (λ t. t % cycle) (omega arith) ∙ mod_of_round k cycle e h in
    ground (arith, m)

-- In any two rounds of the cycle, `e` milliseconds into the first of them and `f` into the other, an
-- overflowing cell that is shown and not frozen is at the top, if `e` is within the first 12% of the
-- round, and at the very bottom, if `f` is between 50% and 62% of it.
pub frame_holds :
    (cycle k l e f s : ℕ) (c : Cell)
    → 100 * e < 12 * cycle
    → 50 * cycle ≤ 100 * f
    → 100 * f < 62 * cycle
    → c.attached ≡ true
    → c.frozen ≡ false
    → 4 ≤ c.over
    → c.start ≡ some s
    → ((frame cycle (s + (k * cycle + e)) c).top ≡ 0)
      × ((frame cycle (s + (l * cycle + f)) c).top ≡ c.over * (38 * cycle))
frame_holds cycle k l e f s c early from until h a o b = (
  frame-top cycle k e s c (omega arith) h a o b ∙ at_top cycle c.over e early,
  frame-top cycle l f s c (omega arith) h a o b ∙ at_bottom cycle c.over f from until,
)

-- What happens to one cell while the view stays: frames, a new pacing by the same dwell, and the
-- user's focus, which freezes the cell and lets it go again.
pub data Happening : Type 0 where
  at_frame : ℕ → Happening
  set_up : Happening
  focus : Bool → Happening

pub happen : ℕ → Cell → Happening → Cell
happen cycle c (at_frame t) = frame cycle t c
happen cycle c set_up = setup_cell_scroll c
happen cycle c (focus b) = record c { frozen = b }

pub run : ℕ → Cell → List Happening → Cell
run cycle c [] = c
run cycle c (h ∷ hs) = run cycle (happen cycle c h) hs

abbrev pub IsInRange : ℕ → Cell → Type 0
IsInRange cycle c = c.top ≤ c.over * (38 * cycle)

happen-IsInRange :
    (cycle : ℕ) (c : Cell) (h : Happening) → IsInRange cycle c → IsInRange cycle (happen cycle c h)
unfolding happen frame setup_cell_scroll
happen-IsInRange cycle c (at_frame t) r =
    ground (arith, position-le cycle c.over ((t - started c.start t) % cycle))
happen-IsInRange cycle c set_up r = ground arith
happen-IsInRange cycle c (focus b) r = r

-- The script never scrolls a cell past its end, whatever frames, new pacings and focus changes come.
pub run-IsInRange :
    (cycle : ℕ) (hs : List Happening) (c : Cell)
    → IsInRange cycle c
    → IsInRange cycle (run cycle c hs)
unfolding run
run-IsInRange cycle [] c r = r
run-IsInRange cycle (h ∷ hs) c r =
    run-IsInRange cycle hs (happen cycle c h) (happen-IsInRange cycle c h r)

abbrev pub AllFrames : List Happening → Type 0
AllFrames [] = Unit
AllFrames (at_frame t ∷ hs) = AllFrames hs
AllFrames (set_up ∷ hs) = AllFrames hs
AllFrames (focus b ∷ hs) = ⊥

-- A frozen cell keeps the position that the user gave it, through frames and new pacings alike.
pub run_frozen :
    (cycle : ℕ) (hs : List Happening) (c : Cell)
    → c.frozen ≡ true
    → AllFrames hs
    → ((run cycle c hs).top ≡ c.top) × ((run cycle c hs).frozen ≡ true)
unfolding run happen frame setup_cell_scroll
run_frozen cycle [] c f a = (refl, f)
run_frozen cycle (at_frame t ∷ hs) c f a = ground (arith, run_frozen cycle hs (frame cycle t c))
run_frozen cycle (set_up ∷ hs) c f a = ground (arith, run_frozen cycle hs (setup_cell_scroll c))
run_frozen cycle (focus b ∷ hs) c f a = absurd a
