-- ===== src/VoiceClock/Hour.antt =====
-- The hour in words, voiceclock.js: `dutchHour`, and the previews of the settings page.
mod Spoken
mod Tests
use Prim.Native.String.{String, ◌++◌ as join}
use familyplanner.Prelude.{
  ℕ, ◌+◌, ◌%◌, Bool, true, false, Option, none, some, List, [], ◌∷◌, if◌then◌else◌, ◌==◌, get_elem?,
}
use familyplanner.VoiceClock.{Sound, Chime}

-- `HOURS`
pub hour_names : List String
hour_names =
    "twaalf"
    ∷ ("één"
        ∷ ("twee"
            ∷ ("drie"
                ∷ ("vier"
                    ∷ ("vijf"
                        ∷ ("zes" ∷ ("zeven" ∷ ("acht" ∷ ("negen" ∷ ("tien" ∷ ("elf" ∷ [])))))))))))

-- What a missing name is joined as.
pub or_undefined : Option String → String
or_undefined none = "undefined"
or_undefined (some s) = s

pub dutch_hour : ℕ → String
dutch_hour h = join (or_undefined (get_elem? hour_names ((h % 12 + 12) % 12))) " uur"

-- `fpTestQuarter(sound, quarter)`, at the hour `now`
pub test_quarter : Sound → ℕ → ℕ → Chime
test_quarter sound quarter now = record {
  sound = sound;
  quarter = if quarter == 0 then 1 else quarter;
  hour = now;
  announce = false;
  text = "";
  attention = false;
  due_at = 0;
  preview = true;
}

-- `fpTestHour(sound, announce, attention, rate)`, without the rate, at the hour `now`
pub test_hour : Sound → Bool → Bool → ℕ → Chime
test_hour sound announce attention now = record {
  sound = sound;
  quarter = 0;
  hour = now;
  announce = announce;
  text = dutch_hour now;
  attention = attention;
  due_at = 0;
  preview = true;
}
