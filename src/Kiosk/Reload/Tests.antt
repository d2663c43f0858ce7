-- ===== src/Kiosk/Reload/Tests.antt =====
-- Concrete nights.
use familyplanner.Prelude.{◌≡◌, refl, [], ◌∷◌, map}
use familyplanner.Kiosk.Reload.{tick, step, run, opened}

two_nights : (run opened (map tick (3 ∷ 4 ∷ 4 ∷ 5 ∷ 4 ∷ []))).reloads ≡ 2
unfolding run step
two_nights = refl
