-- ===== src/ClockFace/Week/Iso.antt =====
-- The week number, against the rule of ISO 8601.
use familyplanner.Prelude.{ℕ, ◌+◌, ◌-◌, ◌/◌, ◌%◌, ◌≤◌, ◌<◌, ◌≡◌, refl, arith, ◌⊎◌, pos, ◌-ℤ◌}
use familyplanner.ClockFace.Week.{
  Date, year_length, days_before, week_day, shift, thursday, iso_week,
}
use familyplanner.ClockFace.Week.Calendar.{days_before_next}

year_length-cases : (y : ℕ) → (year_length y ≡ 365) ⊎ (year_length y ≡ 366)
unfolding year_length
year_length-cases y = ground arith

-- The number of a day, counted from the first of all.
abbrev pub day_number : Date → ℕ
day_number d = days_before d.year + d.day

-- The Monday of the week with the fourth of January.
abbrev pub week_one : ℕ → ℕ
week_one y = days_before y + 3 - (days_before y + 3) % 7

-- The day lies in week `w` of the year `y` of weeks, which begins with week one of `y` and ends before
-- week one of the next year.
pub record IsInWeek (y w day : ℕ) : Type 0 where
  pub begun : week_one y ≤ day
  pub over : day < week_one (y + 1)
  pub counted : w ≡ (day - week_one y) / 7 + 1

week_of :
    (b len y day : ℕ)
    → days_before y ≡ b
    → days_before (y + 1) ≡ b + len
    → (len ≡ 365) ⊎ (len ≡ 366)
    → (t : ℕ) → t < len
    → b + t ≡ day - day % 7 + 3
    → IsInWeek y ((t + 7) / 7) day
week_of b len y day e f h t l q = record {
  begun = ground arith;
  over = ground arith;
  counted = ground arith;
}

-- A day of the calendar, of a year that `Date.UTC` takes as it is, as well as the year before.
pub record IsDate (d : Date) : Type 0 where
  pub in_calendar : 101 ≤ d.year
  pub in_year : d.day < year_length d.year

-- The date `t` is the day with the number `n`.
record IsDay (t : Date) (n : ℕ) : Type 0 where
  some_year : 1 ≤ t.year
  within : t.day < year_length t.year
  numbered : day_number t ≡ n

-- A shift by `a - b` days, of a few days either way.
shift-IsDay :
    (a b : ℕ) (d : Date) (n : ℕ)
    → IsDate d
    → n + b ≡ day_number d + a
    → a ≤ 7
    → b ≤ 7
    → IsDay (shift (pos a -ℤ pos b) d) n
unfolding shift
shift-IsDay a b d n v e h l =
    let here = days_before_next d.year (let i = v.in_calendar in omega arith) in
    let back = days_before_next (d.year - 1) (let i = v.in_calendar in omega arith) in
    let i = v.in_calendar in
    let w = v.in_year in
    let same : d.year - 1 + 1 ≡ d.year = omega arith in
    let back' : days_before d.year ≡ days_before (d.year - 1) + year_length (d.year - 1) =
      rw same at back in
    let c = year_length-cases d.year in
    let c' = year_length-cases (d.year - 1) in
    let c₁ = year_length-cases (d.year + 1) in ground arith

thursday-IsDay : (d : Date) → IsDate d → IsDay (thursday d) (day_number d - day_number d % 7 + 3)
unfolding thursday week_day
thursday-IsDay d v =
    shift-IsDay 4 (day_number d % 7 + 1) d _ v (omega arith) (omega arith) (omega arith)

-- The number that the widget shows is the number of the date's week by ISO 8601: the week, from Monday
-- to Sunday, is counted in the year of its Thursday, from the week with the fourth of January on.
pub iso_week_lem : (d : Date) → IsDate d → IsInWeek (thursday d).year (iso_week d) (day_number d)
unfolding iso_week
iso_week_lem d v =
    let t = thursday-IsDay d v in
    let y = (thursday d).year in
    week_of (days_before y) (year_length y) y (day_number d) refl (days_before_next y t.some_year)
      (year_length-cases y) (thursday d).day t.within t.numbered
