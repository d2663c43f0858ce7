-- ===== src/Server/Chimes/Tests.antt =====
-- The clock as it is set at first, in the evening.
use Prim.Native.String.{String}
use familyplanner.Prelude.{ℕ, ◌+◌, arith, ◌≡◌, refl, true, false, none, some}
use familyplanner.VoiceClock.{bong, bing_bong, timesignal, Chime, snoozed, run_chime}
use familyplanner.VoiceClock.Audible.{heard}
use familyplanner.Server.Chimes.{
  Config, valid_sound, sound_for_quarter, between, in_quiet_if, in_quiet, is_silent, hour_chime,
  chime_at, decide, dutch_hour, dutch_hours, or_panic, speech_ms, rate_or, lead, is_signal,
  chime_delay,
}
use familyplanner.VoiceClock.Pips.{third_pip}
use familyplanner.Server.Chimes.Heard.{decided_heard}
use familyplanner.Server.Chimes.Beat.{third_pip_on_beat}

abbrev default : Config
default = record {
  enabled = true;
  quiet_start = some 1320;
  quiet_end = some 420;
  quarter_sound = some bing_bong;
  half_sound = some bong;
  hour_sound = some timesignal;
  announce = true;
  attention = true;
}

abbrev eight : Chime
eight = record {
  sound = timesignal;
  quarter = 0;
  hour = 20;
  announce = true;
  text = "acht uur";
  attention = true;
  due_at = 0;
  preview = false;
}

decided_at_eight : decide default 1200 ≡ some eight
unfolding decide in_quiet in_quiet_if between chime_at hour_chime is_silent sound_for_quarter
    valid_sound dutch_hour dutch_hours or_panic
decided_at_eight = refl

decided_heard_example :
    (default.enabled ≡ true)
    × ((in_quiet default 1200 ≡ false)
        × (heard (run_chime none (record eight { due_at = 72000000 })) ≡ true))
unfolding snoozed
decided_heard_example = decided_heard default 1200 eight 72000000 none decided_at_eight refl

-- Every text of two words.
abbrev two_words : String → ℕ
two_words text = 2

third_pip_on_beat_example :
    third_pip
      (71_950_000 + chime_delay two_words 70 71_950_000 72_000_000 (some eight))
      8_000
      (run_chime none (record eight { due_at = 72_000_000 }))
    ≡ some 72_000_000
unfolding snoozed speech_ms rate_or lead is_signal
third_pip_on_beat_example =
    third_pip_on_beat default 1200 eight two_words 70 71_950_000 72_000_000 8_000 none
      decided_at_eight refl refl (omega arith) (omega arith)
