-- ===== src/Kiosk/Pip/Tests.antt =====
-- The corner on concrete playlists.
use familyplanner.Prelude.{◌+◌, ◌%◌, ◌≡◌, refl, true, false, none, some, [], ◌∷◌, arith, pos}
use familyplanner.Kiosk.Pip.{
  Item, Content, Pip, clear_timer, set_timer, stop_players, wrap, fetch, turn, rotate,
  rotate_unless, is_unlisted, pip_next, pip_prev, ends_itself, put, show, show_if, dwell_ms, page,
  failed, settle, answer, hide, build, start, start_with, start_if, on_pip, same_items,
  start_unless, playlist, next, due, arrived, run,
}
use familyplanner.Kiosk.Pip.Rotation.{IsValid, corner-IsValid}
use familyplanner.Kiosk.Pip.Races.{IsFetching, leave, dwell-IsFetching}
use familyplanner.Ring.{walk, after_steps}
use familyplanner.Kiosk.Pip.Errors.{fail_all, fail_all-IsFetching}
use familyplanner.Kiosk.Pip.Walk.{corner_walk}

abbrev clock : Item
clock = record { id = "clock"; dwell = pos 20; on_end = false }

abbrev film : Item
film = record { id = "film"; dwell = pos 1; on_end = true }

abbrev plain : Content
plain = record { video = false; pdf = none; players = 0 }

abbrev video : Content
video = record { video = true; pdf = none; players = 1 }

-- A page with a corner that nothing was sent to yet.
abbrev empty : Pip
empty = record {
  corner = true;
  built = false;
  displayed = false;
  hidden = false;
  items = [];
  idx = 0;
  pending = [];
  shown = none;
  players = 0;
  timers = [];
  handle = none;
  next_timer = 7;
  delay = 0;
  bar = none;
}

abbrev fetching : Pip
fetching = record empty { built = true; items = clock ∷ film ∷ []; pending = clock ∷ [] }

abbrev both_fetched : Pip
both_fetched = record fetching { pending = clock ∷ film ∷ [] }

empty-IsValid : IsValid empty
empty-IsValid = record {
  listed = λ b. absurd (cc b);
  within = λ b. absurd (cc b);
  cornered = λ b. refl;
}

abbrev fetching-IsFetching : IsFetching (clock ∷ film ∷ []) 0 fetching
fetching-IsFetching = record {
  built = refl;
  playlist = refl;
  at = refl;
  item = clock;
  item_at = refl;
  pending = refl;
  timers = refl;
}

corner-IsValid_example : IsValid (
    run
      (playlist (clock ∷ film ∷ []) ∷ next ∷ arrived 1 (page plain) ∷ arrived 0 failed ∷ due 8 ∷ [])
      empty)
corner-IsValid_example =
    corner-IsValid
      (playlist (clock ∷ film ∷ []) ∷ next ∷ arrived 1 (page plain) ∷ arrived 0 failed ∷ due 8 ∷ [])
      empty empty-IsValid

dwell-IsFetching_example :
    ((answer 0 (page plain) fetching).shown ≡ some clock)
    × (((answer 0 (page plain) fetching).delay ≡ 20000)
        × (((answer 0 (page plain) fetching).bar ≡ some 20000)
            × IsFetching (clock ∷ film ∷ []) 1 (leave false 7 (answer 0 (page plain) fetching))))
unfolding ends_itself dwell_ms
dwell-IsFetching_example =
    dwell-IsFetching (clock ∷ film ∷ []) 0 plain fetching fetching-IsFetching (omega arith)

-- The state of the second witness comes about by a key press while the first view is still fetched.
next_while_fetching : (pip_next fetching).pending ≡ clock ∷ film ∷ []
unfolding pip_next rotate rotate_unless is_unlisted turn fetch stop_players clear_timer wrap
next_while_fetching = refl

-- A view that ends itself gets no timer; one that does not ends after three seconds at least.
film_ends : (answer 0 (page video) (record fetching { pending = film ∷ [] })).timers ≡ []
unfolding answer settle show show_if ends_itself put
film_ends = refl

short_dwell : (answer 0 (page plain) (record fetching { pending = film ∷ [] })).delay ≡ 3000
unfolding answer settle show show_if ends_itself put set_timer dwell_ms
short_dwell = refl

emptied : (on_pip [] fetching).built ≡ false
unfolding on_pip same_items start_unless start start_if start_with hide stop_players clear_timer
emptied = refl

start_two : (start (clock ∷ film ∷ []) empty).pending ≡ clock ∷ []
unfolding start start_if start_with build rotate rotate_unless is_unlisted turn fetch stop_players
    clear_timer wrap
start_two = refl

corner_walk_example :
    (walk pip_next pip_prev (true ∷ true ∷ false ∷ []) fetching).idx
    ≡ after_steps 2 0 (true ∷ true ∷ false ∷ [])
corner_walk_example =
    corner_walk (clock ∷ film ∷ []) (true ∷ true ∷ false ∷ []) fetching
      (record { listed = refl; built = refl; within = omega arith })

fail_all-IsFetching_example :
    ((fail_all 3 fetching).shown ≡ fetching.shown)
    × IsFetching (clock ∷ film ∷ []) ((0 + 3) % 2) (fail_all 3 fetching)
    × ((answer 0 failed (fail_all 3 fetching)).delay ≡ 10000)
fail_all-IsFetching_example =
    fail_all-IsFetching 3 (clock ∷ film ∷ []) 0 fetching fetching-IsFetching (omega arith)
