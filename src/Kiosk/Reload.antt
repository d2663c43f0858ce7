-- ===== src/Kiosk/Reload.antt =====
-- The nightly reload of kiosk.js: `maybeNightlyReload`, called by every tick of the clock, and the
-- browser around it, which replaces the page (and its variables) when a reload completes.
mod Laws
mod Tests
use familyplanner.Prelude.{ℕ, suc, ◌+◌, Bool, true, false, not, List, [], ◌∷◌, ◌==◌, if◌then◌else◌}

abbrev pub reload_hour : ℕ
reload_hour = 4

-- The script's variable `reloadedToday`, which lives as long as the page does.
pub record Page : Type 0 where
  pub reloaded_today : Bool

abbrev pub fresh : Page
fresh = record { reloaded_today = false }

-- The new page state, and whether `location.reload()` was called.
pub maybe_nightly_reload : ℕ → Page → Page × Bool
maybe_nightly_reload hour p =
    if hour == reload_hour
    then if not p.reloaded_today then (record { reloaded_today = true }, true) else (p, false)
    else (record { reloaded_today = false }, false)

-- What the browser does next to this page: a tick of its interval, or the end of a reload that was
-- asked for, after which the script starts again and ticks at once. Both carry the local hour.
pub data Moment : Type 0 where
  tick : ℕ → Moment
  loaded : ℕ → Moment

pub record Browser : Type 0 where
  pub page : Page
  pub pending : Bool  -- a reload was asked for and has not completed
  pub reloads : ℕ  -- calls of `location.reload()` so far

pub run_tick : ℕ → Page → Browser → Browser
unfolding maybe_nightly_reload
run_tick hour p b =
    let (p', asked) = maybe_nightly_reload hour p in
    if asked
    then record { page = p'; pending = true; reloads = b.reloads + 1 }
    else record b { page = p' }

-- A page load that nobody asked for does not happen.
pub step : Browser → Moment → Browser
unfolding run_tick
step b (tick hour) = run_tick hour b.page b
step b (loaded hour) = if b.pending then run_tick hour fresh (record b { pending = false }) else b

pub run : Browser → List Moment → Browser
run b [] = b
run b (m ∷ ms) = run (step b m) ms

-- The page as it is opened.
abbrev pub opened : Browser
opened = record { page = fresh; pending = false; reloads = 0 }
