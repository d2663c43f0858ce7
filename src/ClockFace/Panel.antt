-- ===== src/ClockFace/Panel.antt =====
-- The dial and the panel of clockface.js: where the hands and the marks of the sun stand, and the texts
-- about the sun. Angles are exact, in parts of a degree that each function names; a missing or negative
-- minute of sunrise or sunset is `none`.
pub mod Texts
pub mod Angles
use familyplanner.Prelude.{
  ℕ, ◌+◌, ◌-◌, ◌*◌, ◌/◌, ◌%◌, Bool, true, false, Option, none, some, List, [], ◌∷◌, ◌++◌,
  if◌then◌else◌, ltb,
}
use familyplanner.Kiosk.Countdown.{Text}
use familyplanner.Kiosk.Countdown.Digits.{decimal}

pub pad : ℕ → Text
pad n = (if ltb n 10 then b'0' ∷ [] else []) ++ decimal n

pub hhmm : ℕ → Text
hhmm minutes = pad (minutes / 60) ++ (b':' ∷ pad (minutes % 60))

pub dur : ℕ → Text
dur minutes =
    let h = minutes / 60 in
    (if ltb 0 h then decimal h ++ (b'u' ∷ b' ' ∷ []) else [])
    ++ (decimal (minutes % 60) ++ (b'm' ∷ []))

-- A local time of day.
pub record Time : Type 0 where
  pub hours : ℕ
  pub minutes : ℕ
  pub seconds : ℕ
  pub milliseconds : ℕ

-- `s * 6` degrees, in 500ths of three degrees: milliseconds of the minute.
pub second_ms : Time → ℕ
second_ms t = t.seconds * 1000 + t.milliseconds

-- `m * 6` degrees, in 10,000ths of a degree: milliseconds of the hour.
pub minute_ms : Time → ℕ
minute_ms t = t.minutes * 60000 + second_ms t

-- `h * 30` degrees, in 120,000ths of a degree: milliseconds of the half day.
pub hour_ms : Time → ℕ
hour_ms t = t.hours % 12 * 3600000 + minute_ms t

-- `f`, of the three angles: hundredths of a degree, rounded half up.
pub hour_angle : Time → ℕ
hour_angle t = (hour_ms t + 600) / 1200

pub minute_angle : Time → ℕ
minute_angle t = (minute_ms t + 50) / 100

pub second_angle : Time → ℕ
second_angle t = (6 * second_ms t + 5) / 10

-- The angle of `sunMark`, `((min / 60) % 12) * 30` degrees, in half degrees.
pub mark_angle : Option ℕ → Option ℕ
mark_angle none = none
mark_angle (some minutes) = some (minutes % 720)

-- What the panel says of the sun: the constructors stand for the fixed words around a time.
pub data Part : Type 0 where
  rises sets : Text → Part
  until_sunrise until_sunset : Text → Part
  night : Part

pub time_part : (Text → Part) → Option ℕ → List Part
time_part p none = []
time_part p (some minutes) = p (hhmm minutes) ∷ []

pub sun_part : ℕ → ℕ → ℕ → Part
sun_part now rise set =
    if ltb now rise
    then until_sunrise (dur (rise - now))
    else if ltb now set
    then until_sunset (dur (set - now))
    else night

pub rest_part : ℕ → Option ℕ → Option ℕ → List Part
rest_part now (some rise) (some set) = sun_part now rise set ∷ []
rest_part now _ _ = []

-- The parts of `updateText` about the sun, at the minute `now` of the day.
pub sun_parts : ℕ → Option ℕ → Option ℕ → List Part
sun_parts now rise set = time_part rises rise ++ (time_part sets set ++ rest_part now rise set)
