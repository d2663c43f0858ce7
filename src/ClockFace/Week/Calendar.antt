-- ===== src/ClockFace/Week/Calendar.antt =====
-- The calendar that the week number rests on.
use familyplanner.Prelude.{ℕ, ◌+◌, ◌≤◌, ◌≡◌, arith}
use familyplanner.ClockFace.Week.{is_leap, year_length, days_before}

-- A year begins where the year before it ends.
pub days_before_next : (y : ℕ) → 1 ≤ y → days_before (y + 1) ≡ days_before y + year_length y
unfolding days_before year_length is_leap
days_before_next y h = ground arith
