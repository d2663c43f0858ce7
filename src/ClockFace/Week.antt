-- ===== src/ClockFace/Week.antt =====
-- `isoWeek` of clockface.js. A date in UTC is its year and its place in the year; the Gregorian calendar
-- is the language's own. `Date.UTC` reads the years below 100 as years of the twentieth century, which
-- the model leaves out.
mod Calendar
mod Iso
mod Tests
use familyplanner.Prelude.{
  ℕ, ◌+◌, ◌-◌, ◌*◌, ◌/◌, ◌%◌, Bool, true, false, not, ◌&&◌, ◌||◌, if◌then◌else◌, ◌==◌, ltb, leb, ℤ,
  pos, negsuc, ◌+ℤ◌, ◌-ℤ◌, ltb_ℤ, pos_part,
}

pub record Date : Type 0 where
  pub year : ℕ
  pub day : ℕ  -- 0 is the first of January

pub is_leap : ℕ → Bool
is_leap y = y % 4 == 0 && (not (y % 100 == 0) || y % 400 == 0)

pub year_length : ℕ → ℕ
year_length y = if is_leap y then 366 else 365

-- The days before the year `y`; the first of them all is a Monday.
pub days_before : ℕ → ℕ
days_before y = let p = y - 1 in p * 365 + p / 4 + p / 400 - p / 100

-- `getUTCDay() || 7`: Monday is 1, and Sunday 7.
pub week_day : Date → ℕ
week_day d = (days_before d.year + d.day) % 7 + 1

-- `setUTCDate` to a day that lies less than a year away: the date carries into the years beside it.
pub shift : ℤ → Date → Date
shift k d =
    let n = pos d.day +ℤ k in
    if ltb_ℤ n (pos 0)
    then record { year = d.year - 1; day = pos_part (pos (year_length (d.year - 1)) +ℤ n) }
    else if leb (year_length d.year) (pos_part n)
    then record { year = d.year + 1; day = pos_part n - year_length d.year }
    else record d { day = pos_part n }

-- The Thursday of the week.
pub thursday : Date → Date
thursday d = shift (pos 4 -ℤ pos (week_day d)) d

-- `isoWeek`: `Math.ceil((days since the first of January + 1) / 7)` for the Thursday.
pub iso_week : Date → ℕ
iso_week d = ((thursday d).day + 7) / 7
