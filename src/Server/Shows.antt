-- ===== src/Server/Shows.antt =====
-- The refreshes that a shown widget starts, internal/server/server.go: `bgRefresh`, for one widget, which the
-- maps keep apart from the others. Times are in milliseconds. The refresh itself runs beside the handlers, and
-- its end is an event.
mod Spaced
mod Tests
use familyplanner.Prelude.{
  ℕ, ◌+◌, Bool, true, false, Option, none, some, List, [], ◌∷◌, if◌then◌else◌, ltb,
}

-- `refreshing[id]` and `lastRefresh[id]`.
pub record Shown : Type 0 where
  pub refreshing : Bool
  pub last_refresh : Option ℕ

pub too_recent : ℕ → Option ℕ → Bool
too_recent now none = false
too_recent now (some t) = ltb now (t + 10000)

-- Whether a refresh is started is told with the state.
pub start_unless : Bool → ℕ → Shown → Shown × Bool
start_unless true now s = (s, false)
start_unless false now s = (record { refreshing = true; last_refresh = some now }, true)

-- `bgRefresh`
pub bg_refresh : ℕ → Shown → Shown × Bool
bg_refresh now s = start_unless (if s.refreshing then true else too_recent now s.last_refresh) now s

pub end_refresh : Shown → Shown
end_refresh s = record s { refreshing = false }

-- A widget is shown at a time, or its refresh is at its end.
pub data Event : Type 0 where
  shown : ℕ → Event
  ended : Event

-- The times at which refreshes were started, the last of them first.
pub log_if : ℕ → Shown × Bool → List ℕ → Shown × List ℕ
log_if now (s, true) ts = (s, now ∷ ts)
log_if now (s, false) ts = (s, ts)

pub step : Event → Shown × List ℕ → Shown × List ℕ
step (shown now) (s, ts) = log_if now (bg_refresh now s) ts
step ended (s, ts) = (end_refresh s, ts)

pub run : List Event → Shown × List ℕ → Shown × List ℕ
run [] x = x
run (e ∷ es) x = run es (step e x)

-- At the start of the server.
pub unshown : Shown × List ℕ
unshown = (record { refreshing = false; last_refresh = none }, [])
