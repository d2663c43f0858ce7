-- ===== src/Server/Chimes.antt =====
-- When the voice clock chimes, internal/voiceclock/voiceclock.go: `Decide`, `InQuiet`, `NextBoundary` and
-- `Lead`, with `chimeDelay` of internal/server/server.go. The chime is the one that the page gets; its rate is
-- apart from it.
mod Heard
mod Quiet
mod Beat
mod Tests
use Prim.Native.String.{String, ◌++◌ as join}
use familyplanner.Prelude.{
  ℕ, zero, suc, ◌+◌, ◌-◌, ◌*◌, ◌/◌, ◌%◌, Bool, true, false, not, ◌&&◌, ◌||◌, Option, none, some,
  List, [], ◌∷◌, if◌then◌else◌, ltb, leb, ◌==◌, get_elem?,
}
use familyplanner.VoiceClock.{
  Sound, bing, bong, bing_bong, gong_stroke, pip_tones, timesignal, westminster_chimes, silent,
  Chime,
}

-- `Config`: the sounds are `none` where the text names none that there is, and the bounds of the quiet hours
-- are `none` where they do not parse, else minutes of the day.
pub record Config : Type 0 where
  pub enabled : Bool
  pub quiet_start : Option ℕ
  pub quiet_end : Option ℕ
  pub quarter_sound : Option Sound
  pub half_sound : Option Sound
  pub hour_sound : Option Sound
  pub announce : Bool
  pub attention : Bool

-- `validSound(s, def)`
pub valid_sound : Option Sound → Sound → Sound
valid_sound (some s) d = s
valid_sound none d = d

pub sound_for_quarter : ℕ → Config → Sound
sound_for_quarter zero c = valid_sound c.hour_sound timesignal
sound_for_quarter (suc (suc zero)) c = valid_sound c.half_sound bong
sound_for_quarter _ c = valid_sound c.quarter_sound bing_bong

-- `InQuiet`, at the minute `now` of the day
pub between : ℕ → ℕ → ℕ → Bool
between start end now =
    if start == end
    then false
    else if ltb start end
    then leb start now && ltb now end
    else leb start now || ltb now end

pub in_quiet_if : Option ℕ → Option ℕ → ℕ → Bool
in_quiet_if (some start) (some end) now = between start end now
in_quiet_if _ _ now = false

pub in_quiet : Config → ℕ → Bool
in_quiet c now = in_quiet_if c.quiet_start c.quiet_end now

-- `sound == SoundNone`
pub is_silent : Sound → Bool
is_silent silent = true
is_silent _ = false

pub dutch_hours : List String
dutch_hours =
    "twaalf"
    ∷ ("één"
        ∷ ("twee"
            ∷ ("drie"
                ∷ ("vier"
                    ∷ ("vijf"
                        ∷ ("zes" ∷ ("zeven" ∷ ("acht" ∷ ("negen" ∷ ("tien" ∷ ("elf" ∷ [])))))))))))

-- An index out of range would panic; there is none.
pub or_panic : Option String → String
or_panic none = ""
or_panic (some s) = s

-- `DutchHour`
pub dutch_hour : ℕ → String
dutch_hour h = join (or_panic (get_elem? dutch_hours ((h % 12 + 12) % 12))) " uur"

pub quarter_chime : Sound → ℕ → ℕ → Option Chime
quarter_chime sound q hour =
    if is_silent sound
    then none
    else some (record {
      sound = sound;
      quarter = q;
      hour = hour;
      announce = false;
      text = "";
      attention = false;
      due_at = 0;
      preview = false;
    })

pub hour_chime : Sound → ℕ → Config → Option Chime
hour_chime sound hour c =
    if is_silent sound && not c.announce
    then none
    else some (record {
      sound = sound;
      quarter = 0;
      hour = hour;
      announce = c.announce;
      text = if c.announce then dutch_hour hour else "";
      attention = c.announce && c.attention;
      due_at = 0;
      preview = false;
    })

pub chime_at : ℕ → ℕ → Config → Option Chime
chime_at zero hour c = hour_chime (sound_for_quarter 0 c) hour c
chime_at (suc q) hour c = quarter_chime (sound_for_quarter (suc q) c) (suc q) hour

-- `Decide`, at the minute `now` of the day
pub decide : Config → ℕ → Option Chime
decide c now =
    if not c.enabled || in_quiet c now then none else chime_at (now % 60 / 15 % 4) (now / 60) c

-- `NextBoundary`, in seconds of the day, of which there may be more in the result
pub next_boundary : ℕ → ℕ
next_boundary now =
    let b = now / 3600 * 3600 + now % 3600 / 60 / 15 * 15 * 60 in if ltb now b then b else b + 900

-- `c.Sound == SoundTimeSignal`
pub is_signal : Sound → Bool
is_signal timesignal = true
is_signal _ = false

-- The rate in hundredths, with the default of `Lead`.
pub rate_or : ℕ → ℕ
rate_or zero = 85
rate_or (suc n) = suc n

-- The estimate of the phrase, in milliseconds.
pub speech_ms : ℕ → ℕ → ℕ
speech_ms words rate = words * 60_000 / rate_or rate

-- `Lead`, of a chime with this rate, in milliseconds; `words` is the number of `strings.Fields`.
pub lead : (String → ℕ) → ℕ → Chime → ℕ
lead words rate d =
    if not (is_signal d.sound)
    then 0
    else if not d.announce
    then 2_000
    else 2_000 + (if d.attention then 3_000 else 0) + speech_ms (8 + words d.text) rate

-- `chimeDelay`, for the beat and the chime that is decided on for it; it is never negative.
pub chime_delay : (String → ℕ) → ℕ → ℕ → ℕ → Option Chime → ℕ
chime_delay words rate now beat none = beat - now
chime_delay words rate now beat (some d) = beat - now - lead words rate d
