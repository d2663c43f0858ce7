-- ===== src/VoiceClock/Hour/Tests.antt =====
-- Three in the afternoon.
use familyplanner.Prelude.{◌≡◌, refl}
use familyplanner.VoiceClock.Hour.{hour_names, or_undefined, dutch_hour}

three_is_said : dutch_hour 15 ≡ "drie uur"
unfolding dutch_hour or_undefined hour_names
three_is_said = refl
