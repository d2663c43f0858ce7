-- ===== src/ClockFace/Panel/Angles.antt =====
-- The dial: the hands, and the marks of the sun.
use familyplanner.Prelude.{ℕ, ◌+◌, ◌*◌, ◌/◌, ◌%◌, ◌<◌, ◌≤◌, ◌≡◌, ap, arith, some}
use familyplanner.ClockFace.Panel.{
  Time, second_ms, minute_ms, hour_ms, hour_angle, minute_angle, second_angle, mark_angle,
}

-- The time of day at the minute `m`, sharp.
abbrev pub at_minute : ℕ → Time
at_minute m = record { hours = m / 60; minutes = m % 60; seconds = 0; milliseconds = 0 }

-- A time that clocks show.
pub record IsTime (t : Time) : Type 0 where
  pub hour : t.hours < 24
  pub minute : t.minutes < 60
  pub second : t.seconds < 60
  pub millisecond : t.milliseconds < 1000

-- `angle`, in hundredths of a degree, is `exact / unit` rounded to the nearest: a whole turn at most.
abbrev pub Rounds : ℕ → ℕ → ℕ → Type 0
Rounds angle exact unit =
    (angle ≤ 36000) × (2 * unit * angle ≤ 2 * exact + unit) × (2 * exact ≤ 2 * unit * angle + unit)

-- The mark of a sunrise or a sunset stands where the hour hand points at that minute.
pub mark_lem : (m : ℕ) → mark_angle (some m) ≡ some (hour_ms (at_minute m) / 60000)
unfolding mark_angle hour_ms minute_ms second_ms
mark_lem m = ap some (omega arith)

-- At every time each of the three hands gets its exact angle, rounded to the nearest hundredth of a
-- degree, and never more than a whole turn.
pub hands_round :
    (t : Time)
    → IsTime t
    → Rounds (hour_angle t) (hour_ms t) 1200
      × (Rounds (minute_angle t) (minute_ms t) 100 × Rounds (second_angle t) (6 * second_ms t) 10)
unfolding hour_angle minute_angle second_angle hour_ms minute_ms second_ms
hands_round t v =
    let a = v.hour in
    let b = v.minute in
    let c = v.second in
    let d = v.millisecond in
    (
      (omega arith, omega arith, omega arith),
      ((omega arith, omega arith, omega arith), (omega arith, omega arith, omega arith)),
    )
