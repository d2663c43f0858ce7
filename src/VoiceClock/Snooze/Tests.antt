-- ===== src/VoiceClock/Snooze/Tests.antt =====
-- A kiosk that is muted, restarted and unmuted.
use familyplanner.Prelude.{◌≡◌, refl, true, false, none, List, [], ◌∷◌, ◌&&◌}
use familyplanner.VoiceClock.Snooze.{Kiosk, is_snoozed, start, Event, pressed, reloaded, spoke, run}
use familyplanner.VoiceClock.Snooze.Painted.{after_all, button_shows}

abbrev kiosk : Kiosk
kiosk = record {
  readable = true;
  writable = true;
  stored = none;
  button = true;
  icon = false;
  speech = true;
  speaking = false;
}

abbrev evening : List Event
evening = spoke ∷ pressed ∷ reloaded ∷ pressed ∷ pressed ∷ []

button_shows_example :
    ((run evening (start kiosk)).icon ≡ is_snoozed (run evening (start kiosk)))
    × (is_snoozed (run evening (start kiosk)) ≡ after_all evening (true && true) (is_snoozed kiosk))
button_shows_example = button_shows evening kiosk refl
