-- ===== src/VoiceClock/Tone.antt =====
-- The oscillators of a stroke, voiceclock.js: `bell` and `beep`. Levels of the gain are in ten-thousandths.
mod Clean
mod Tests
use familyplanner.Prelude.{ℕ, ◌+◌, ◌-◌, ◌*◌, Bool, true, false, List, [], ◌∷◌, ◌++◌, if◌then◌else◌}
use familyplanner.VoiceClock.{Stroke, bell, beep}

pub data Wave : Type 0 where
  triangle sine : Wave

-- A point of the gain's envelope, which is set there (`glides` is false) or reached by an exponential ramp.
pub record Point : Type 0 where
  pub time : ℕ
  pub level : ℕ
  pub glides : Bool

pub record Tone : Type 0 where
  pub wave : Wave
  pub freq : ℕ
  pub envelope : List Point
  pub start : ℕ
  pub stop : ℕ

-- One round of the loop of `bell`: the fundamental, or the octave above it.
pub partial : Bool → ℕ → ℕ → ℕ → ℕ → Tone
partial octave freq start dur peak =
    let pk = if octave then peak * 30 else peak * 100 in
    record {
      wave = triangle;
      freq = if octave then freq * 2 else freq * 1;
      envelope =
          record { time = start; level = 1; glides = false }
          ∷ (record { time = start + 12; level = pk; glides = true }
              ∷ (record { time = start + dur; level = 1; glides = true } ∷ []));
      start = start;
      stop = start + dur + 50;
    }

pub bell_tones : ℕ → ℕ → ℕ → ℕ → List Tone
bell_tones freq start dur peak =
    partial false freq start dur peak ∷ (partial true freq start dur peak ∷ [])

pub beep_tone : ℕ → ℕ → ℕ → Tone
beep_tone freq start dur = record {
  wave = sine;
  freq = freq;
  envelope =
      record { time = start; level = 1; glides = false }
      ∷ (record { time = start + 5; level = 3000; glides = true }
          ∷ (record { time = start + dur - 20; level = 3000; glides = false }
              ∷ (record { time = start + dur; level = 1; glides = true } ∷ [])));
  start = start;
  stop = start + dur + 20;
}

pub tones : Stroke → List Tone
tones (bell freq start dur peak) = bell_tones freq start dur peak
tones (beep freq start dur) = beep_tone freq start dur ∷ []

pub all_tones : List Stroke → List Tone
all_tones [] = []
all_tones (s ∷ ss) = tones s ++ all_tones ss
