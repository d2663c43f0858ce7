-- ===== src/VoiceClock/Voice/Tests.antt =====
-- A browser with an English, a Dutch and a Flemish voice.
use familyplanner.Prelude.{◌≡◌, refl, some, List, [], ◌∷◌}
use familyplanner.VoiceClock.Voice.{
  Voice, lower, is_dutch, is_belgian_here, is_belgian, find, or_else, set_voice,
}

abbrev english : Voice
english = record { name = b'e' ∷ []; lang = b'e' ∷ (b'n' ∷ []) }

abbrev dutch_voice : Voice
dutch_voice = record { name = b'd' ∷ []; lang = b'n' ∷ (b'l' ∷ (b'-' ∷ (b'N' ∷ (b'L' ∷ [])))) }

abbrev flemish_voice : Voice
flemish_voice = record { name = b'f' ∷ []; lang = b'n' ∷ (b'l' ∷ (b'_' ∷ (b'b' ∷ (b'E' ∷ [])))) }

abbrev voices : List Voice
voices = english ∷ (dutch_voice ∷ (flemish_voice ∷ []))

flemish_speaks : set_voice voices ≡ some flemish_voice
unfolding set_voice or_else find is_belgian is_belgian_here is_dutch lower
flemish_speaks = refl
