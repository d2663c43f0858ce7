-- ===== src/VoiceClock/Tone/Tests.antt =====
-- The tones of the hour.
use familyplanner.VoiceClock.{play_sound, westminster_chimes}
use familyplanner.VoiceClock.Tone.{all_tones}
use familyplanner.VoiceClock.Tone.Clean.{AllClean, play_sound-AllClean}

play_sound-AllClean_example : AllClean (all_tones (play_sound westminster_chimes 0 15).0)
play_sound-AllClean_example = play_sound-AllClean westminster_chimes 0 15
