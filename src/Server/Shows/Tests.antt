-- ===== src/Server/Shows/Tests.antt =====
-- A widget on two screens.
use familyplanner.Prelude.{◌≡◌, refl, List, [], ◌∷◌}
use familyplanner.Server.Shows.{
  Event, shown, ended, run, step, log_if, bg_refresh, too_recent, start_unless, end_refresh,
  unshown,
}

abbrev screens : List Event
screens = shown 1000 ∷ shown 4000 ∷ ended ∷ shown 9000 ∷ shown 11000 ∷ shown 30000 ∷ ended ∷ []

two_starts : (run screens unshown).1 ≡ 11000 ∷ 1000 ∷ []
unfolding run step log_if bg_refresh too_recent start_unless end_refresh unshown
two_starts = refl
