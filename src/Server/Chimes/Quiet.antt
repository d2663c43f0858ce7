-- ===== src/Server/Chimes/Quiet.antt =====
-- The quiet hours, and the beats.
use familyplanner.Prelude.{ℕ, ◌+◌, ◌-◌, ◌%◌, ◌<◌, ◌≤◌, ◌≡◌, ltb, arith}
use familyplanner.Server.Chimes.{between, next_boundary}

-- The quiet hours begin at their start and last as long as it is from there to their end round the clock,
-- over midnight or not: the time is quiet if it is less far from their start.
pub between_lem :
    (start end now : ℕ)
    → start < 1440
    → end < 1440
    → now < 1440
    → between start end now ≡ ltb ((now + 1440 - start) % 1440) ((end + 1440 - start) % 1440)
unfolding between
between_lem start end now a b c = ground arith

-- The next beat is the first full quarter of an hour after the time.
pub next_boundary_lem :
    (now : ℕ)
    → (now < next_boundary now) × ((next_boundary now ≤ now + 900) × (next_boundary now % 900 ≡ 0))
unfolding next_boundary
next_boundary_lem now = ground arith
