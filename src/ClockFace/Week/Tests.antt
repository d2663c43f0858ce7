-- ===== src/ClockFace/Week/Tests.antt =====
-- The week numbers at the turn of a year.
use familyplanner.Prelude.{◌≡◌, refl, arith}
use familyplanner.ClockFace.Week.{
  Date, is_leap, year_length, days_before, week_day, shift, thursday, iso_week,
}
use familyplanner.ClockFace.Week.Iso.{IsInWeek, day_number, iso_week_lem}

-- The first of January 2021, a Friday, lies in week 53 of 2020.
abbrev friday : Date
friday = record { year = 2021; day = 0 }

friday_week : (iso_week friday ≡ 53) × ((thursday friday).year ≡ 2020)
unfolding iso_week thursday shift week_day days_before year_length is_leap
friday_week = (refl, refl)

iso_week_lem_example : IsInWeek (thursday friday).year (iso_week friday) (day_number friday)
iso_week_lem_example =
    iso_week_lem friday
      (record { in_calendar = omega arith; in_year = unfold year_length is_leap in omega arith })
