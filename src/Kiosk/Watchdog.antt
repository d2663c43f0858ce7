-- ===== src/Kiosk/Watchdog.antt =====
-- The watchdog, the inline script of internal/web/kiosk.templ, over the listeners of kiosk.js that stamp
-- `window.__fpBeat`. Times are in milliseconds.
mod Steady
mod Silent
mod Tests
use familyplanner.Prelude.{ℕ, ◌+◌, ◌-◌, Bool, true, false, List, [], ◌∷◌, if◌then◌else◌, ltb}
use familyplanner.Kiosk.State.{Effect, beat}
use familyplanner.Kiosk.Stage.{Stage}
use familyplanner.Kiosk.Stage.Listen.{Message, listen, has_reload}

pub record Watched : Type 0 where
  pub stage : Stage
  pub last_beat : ℕ  -- `window.__fpBeat`
  pub reloads : ℕ  -- the calls of `location.reload()` that the watchdog made
  pub served : ℕ → Stage  -- the stage of a page that is loaded at a time

-- `beat()` stamps the time, each time that a handler calls it.
pub stamp : ℕ → Effect → ℕ → ℕ
stamp now beat b = now
stamp now _ b = b

pub stamp_all : ℕ → List Effect → ℕ → ℕ
stamp_all now [] b = b
stamp_all now (e ∷ es) b = stamp_all now es (stamp now e b)

-- `location.reload()`: the page begins anew, with `window.__fpBeat = Date.now()`; the load itself takes no
-- time.
pub restart : ℕ → Watched → Watched
restart now w = record w { stage = w.served now; last_beat = now }

-- The callback of the watchdog's interval, which runs every 30 seconds, also from a restart on.
pub check : ℕ → Watched → Watched
check now w =
    if ltb 150000 (now - w.last_beat) then restart now (record w { reloads = w.reloads + 1 }) else w

pub restart_if : Bool → ℕ → Watched → Watched
restart_if true now w = restart now w
restart_if false now w = w

-- A message and its listeners, one of which may reload the page.
pub hear : ℕ → Message → Watched → Watched
hear now m w =
    let (s, es) = listen m w.stage in
    restart_if (has_reload es) now
      (record w { stage = s; last_beat = stamp_all now es w.last_beat })

pub data Event : Type 0 where
  checked : Event
  got : Message → Event

pub step : ℕ → Event → Watched → Watched
step now checked w = check now w
step now (got m) w = hear now m w

pub run : List (ℕ × Event) → Watched → Watched
run [] w = w
run ((t, e) ∷ es) w = run es (step t e w)
