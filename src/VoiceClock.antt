-- ===== src/VoiceClock.antt =====
-- The voice clock, internal/web/assets/voiceclock.js, in a browser that has an audio context: what each
-- chime plays and says. Times are in milliseconds from the call on, frequencies in hundredths of a hertz,
-- and volumes in hundredths.
mod Strokes
mod Announce
pub mod Audible
pub mod Pips
mod Tone
mod Hour
mod Voice
mod Audio
mod Snooze
use Prim.Native.String.{String}
use familyplanner.Prelude.{
  ℕ, zero, suc, ◌+◌, ◌-◌, ◌%◌, Bool, true, false, not, ◌&&◌, Option, none, some, List, [], ◌∷◌,
  ◌++◌, if◌then◌else◌, ◌==◌,
}
use text.Mathlib.Text.{◌==◌ as str_eq}

-- One call of `bell` or of `beep`: frequency, start, duration and, for a bell, its volume.
pub data Stroke : Type 0 where
  bell : (freq start dur peak : ℕ) → Stroke
  beep : (freq start dur : ℕ) → Stroke

pub bb_gap : ℕ → ℕ
bb_gap (suc zero) = 300
bb_gap (suc (suc zero)) = 550
bb_gap (suc (suc (suc zero))) = 850
bb_gap _ = 450

-- Each sound: its strokes, and the duration that its function returns.
pub bingbong : ℕ → List Stroke × ℕ
bingbong quarter =
    (bell 65925 0 1400 34 ∷ bell 52325 (bb_gap quarter) 1900 34 ∷ [], bb_gap quarter + 1900)

pub time_pips : List Stroke
time_pips = beep 100000 0 100 ∷ beep 100000 1000 100 ∷ beep 100000 2000 500 ∷ []

pub gong : List Stroke × ℕ
gong = (bell 88000 0 1600 34 ∷ bell 58733 300 1600 34 ∷ [], 1900)

pub pips : List Stroke × ℕ
pips = (beep 100000 0 90 ∷ beep 100000 200 90 ∷ beep 100000 400 90 ∷ beep 150000 600 500 ∷ [], 1100)

pub single_bell : ℕ → List Stroke × ℕ
single_bell freq = (bell freq 0 1900 34 ∷ [], 1900)

-- `CH`, the phrases of Westminster Quarters.
pub phrase : ℕ → List ℕ
phrase zero = 41530 ∷ 36999 ∷ 32963 ∷ 24694 ∷ []
phrase (suc zero) = 32963 ∷ 41530 ∷ 36999 ∷ 24694 ∷ []
phrase (suc (suc zero)) = 32963 ∷ 36999 ∷ 41530 ∷ 32963 ∷ []
phrase (suc (suc (suc zero))) = 41530 ∷ 32963 ∷ 36999 ∷ 24694 ∷ []
phrase (suc (suc (suc (suc zero)))) = 24694 ∷ 36999 ∷ 41530 ∷ 32963 ∷ []
phrase _ = []

-- `QSEQ[quarter] || [0]`
pub qseq : ℕ → List ℕ
qseq zero = 1 ∷ 2 ∷ 3 ∷ 4 ∷ []
qseq (suc zero) = 0 ∷ []
qseq (suc (suc zero)) = 1 ∷ 2 ∷ []
qseq (suc (suc (suc zero))) = 3 ∷ 4 ∷ 0 ∷ []
qseq _ = 0 ∷ []

-- The notes of a phrase from the time `t` on, with the time after them.
pub ring : List ℕ → ℕ → List Stroke × ℕ
ring [] t = ([], t)
ring (f ∷ fs) t = let (ss, u) = ring fs (t + 620) in (bell f t 2000 32 ∷ ss, u)

pub ring_all : List ℕ → ℕ → List Stroke × ℕ
ring_all [] t = ([], t)
ring_all (c ∷ cs) t =
    let (ss, u) = ring (phrase c) t in let (rest, v) = ring_all cs (u + 450) in (ss ++ rest, v)

pub strike : ℕ → ℕ → List Stroke × ℕ
strike zero t = ([], t)
strike (suc n) t = let (ss, u) = strike n (t + 1200) in (bell 16481 t 2600 42 ∷ ss, u)

-- `(hour % 12) || 12`
pub strikes : ℕ → ℕ
strikes hour = if hour % 12 == 0 then 12 else hour % 12

pub hour_strokes : Bool → ℕ → ℕ → List Stroke × ℕ
hour_strokes true hour t = strike (strikes hour) (t + 500)
hour_strokes false hour t = ([], t)

pub westminster : ℕ → ℕ → List Stroke × ℕ
westminster quarter hour =
    let (ss, t) = ring_all (qseq quarter) 0 in
    let (hs, u) = hour_strokes (quarter == 0) hour t in (ss ++ hs, u)

-- The values of `sound`; `silent` is "none" or any further text.
pub data Sound : Type 0 where
  bing bong bing_bong gong_stroke pip_tones timesignal westminster_chimes silent : Sound

pub play_sound : Sound → ℕ → ℕ → List Stroke × ℕ
play_sound bing quarter hour = single_bell 65925
play_sound bong quarter hour = single_bell 52325
play_sound bing_bong quarter hour = bingbong quarter
play_sound gong_stroke quarter hour = gong
play_sound pip_tones quarter hour = pips
play_sound timesignal quarter hour = (time_pips, 3000)
play_sound westminster_chimes quarter hour = westminster quarter hour
play_sound silent quarter hour = ([], 0)

-- The data of a chime. A missing quarter or hour reads as 0 where that is the same.
pub record Chime : Type 0 where
  pub sound : Sound
  pub quarter : ℕ
  pub hour : ℕ
  pub announce : Bool
  pub text : String
  pub attention : Bool
  pub due_at : ℕ  -- `d.at`, 0 if it is missing
  pub preview : Bool

-- What a chime does: strokes at once, a sentence after a delay, and a sentence after a delay that the
-- three pips follow.
pub data Action : Type 0 where
  strokes : List Stroke → Action
  say : ℕ → String → Action
  say_then_pips : ℕ → String → ℕ → Action

-- `snoozed()`, from what the browser has stored.
unfoldable pub snoozed : Option String → Bool
snoozed none = false
snoozed (some s) = str_eq s "1"

-- `fpSnooze`: what is stored then.
pub fp_snooze : Option String → Option String
fp_snooze s = some (if snoozed s then "0" else "1")

pub speaks : Chime → Bool
speaks d = d.announce && not (str_eq d.text "")

pub time_signal : Bool → Chime → List Action
time_signal false d = strokes time_pips ∷ []
time_signal true d =
    if d.attention
    then strokes (bell 65925 0 1400 34 ∷ bell 52325 500 1900 34 ∷ [])
      ∷ say_then_pips 2200 d.text d.due_at
      ∷ []
    else say_then_pips 0 d.text d.due_at ∷ []

-- The announcement that follows a sound of `dur`.
pub then_say : Bool → ℕ → String → List Action
then_say true dur text = say (dur + 400) text ∷ []
then_say false dur text = []

pub sound_and_say : Chime → List Action
sound_and_say d =
    let (ss, dur) = play_sound d.sound d.quarter d.hour in
    strokes ss ∷ then_say (speaks d) dur d.text

pub chime_sound : Sound → Chime → List Action
chime_sound timesignal d = time_signal (speaks d) d
chime_sound _ d = sound_and_say d

pub chime_unless : Bool → Chime → List Action
chime_unless true d = []
chime_unless false d = chime_sound d.sound d

-- `runChime(d)`; the sentences are kept without their fixed beginnings.
pub run_chime : Option String → Chime → List Action
run_chime stored d = chime_unless (snoozed stored && not d.preview) d

-- `startPips` at the time `now`: the delay of the three pips.
pub pips_delay : ℕ → ℕ → ℕ
pips_delay due_at now = if due_at == 0 then 0 else due_at - 2000 - now

-- The `{}` that stands for data that does not parse.
pub no_data : Chime
no_data = record {
  sound = silent;
  quarter = 0;
  hour = 0;
  announce = false;
  text = "";
  attention = false;
  due_at = 0;
  preview = false;
}

-- The listener on `chime`.
pub on_chime : Option String → Option Chime → List Action
on_chime stored none = run_chime stored no_data
on_chime stored (some d) = run_chime stored d
