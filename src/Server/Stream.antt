-- ===== src/Server/Stream.antt =====
-- The loop of the kiosk's event stream, internal/server/server.go `handleKioskStream`: what it sends to the
-- page, and when. A view's id is sent as a text (`FormatInt`); what the store says of a view, of the playlist
-- and of the names comes with the events. The messages of the corner and of the voice clock,
-- which the page's other listeners take, are left out.
pub mod Follow
mod Edited
mod Picked
mod Tests
use Prim.Native.String.{String}
use familyplanner.Prelude.{
  ℕ, Bool, true, false, Option, none, some, List, [], ◌∷◌, ◌++◌, if◌then◌else◌, ◌==◌, not, ℤ, pos,
}
use familyplanner.Kiosk.State.{is_positive}
use familyplanner.Kiosk.Stage.{Stage}
use familyplanner.Kiosk.Stage.Listen.{
  Message, Config, navigate, refresh, names, version, dwell, config, mute, unmute, toggle, next,
  prev, listen, run,
}
use familyplanner.Server.Rotation.{
  Item, State, new_state, set_items, current, next as forth, go_to, Command, command,
}

pub record Stream : Type 0 where
  pub state : State
  pub notified : Bool  -- a signal is in the channel `notify`
  pub advance : ℤ  -- the seconds that the timer `advance` was set to

-- `displayDwell()`, in seconds
pub shown_dwell : Option Item → ℤ
shown_dwell none = pos 30
shown_dwell (some it) = if is_positive it.dwell then it.dwell else pos 30

-- `dwell()`, for a view that the page advances itself (`on_end`), or another
pub timer_dwell : (ℕ → Bool) → Option Item → ℤ
timer_dwell on_end none = pos 30
timer_dwell on_end (some it) = if on_end it.view then pos 1800 else shown_dwell (some it)

-- `sendCurrent()`
pub messages_of : (ℕ → String) → Bool → Option Item → List Message
messages_of text paused none = refresh ∷ []
messages_of text paused (some it) =
    navigate (text it.view) ∷ dwell (if paused then pos 0 else shown_dwell (some it)) ∷ []

pub send_current : (ℕ → String) → State → List Message
send_current text s = messages_of text s.paused (current s).1

-- `sendCurrent()` and `reset(advance, dwell())`
pub show : (ℕ → String) → (ℕ → Bool) → Stream → Stream × List Message
show text on_end s = (
  record s { state = (current s.state).0; advance = timer_dwell on_end (current s.state).1 },
  send_current text s.state,
)

pub data UiCommand : Type 0 where
  ui_mute ui_unmute ui_toggle ui_next ui_prev : UiCommand

pub forward : UiCommand → Message
forward ui_mute = mute
forward ui_unmute = unmute
forward ui_toggle = toggle
forward ui_next = next
forward ui_prev = prev

-- What wakes the loop, and the commands that come from elsewhere. A chime that is due brings the view to
-- jump to, if there is one.
pub data Event : Type 0 where
  commanded : Command → Event
  signalled : Event
  forwarded : UiCommand → Event
  refreshed : List Item → List (String × String) → Config → Event
  advanced : Event
  chimed : Option ℕ → Event

pub signal_if : (ℕ → String) → (ℕ → Bool) → Bool → Stream → Stream × List Message
signal_if text on_end true s = show text on_end (record s { notified = false })
signal_if text on_end false s = (s, [])

-- `has && cur.ViewID == vid`
pub is_shown : ℕ → Option Item → Bool
is_shown v none = false
is_shown v (some it) = it.view == v

pub jump_if : (ℕ → String) → (ℕ → Bool) → Bool → Bool → ℕ → Stream → Stream × List Message
jump_if text on_end true shown v s = (s, [])
jump_if text on_end false true v s = (record s { state = (current s.state).0 }, [])
jump_if text on_end false false v s =
    show text on_end (record s { state = go_to v (current s.state).0 })

pub jump : (ℕ → String) → (ℕ → Bool) → Option ℕ → Stream → Stream × List Message
jump text on_end none s = (s, [])
jump text on_end (some v) s =
    jump_if text on_end s.state.paused (is_shown v (current s.state).1) v s

pub step : (ℕ → String) → (ℕ → Bool) → Event → Stream → Stream × List Message
step text on_end (commanded c) s = (record s { state = command c s.state; notified = true }, [])
step text on_end signalled s = signal_if text on_end s.notified s
step text on_end (forwarded c) s = (s, forward c ∷ [])
step text on_end (refreshed its ns c) s =
    (record s { state = set_items its s.state }, refresh ∷ config c ∷ names (some ns) ∷ [])
step text on_end advanced s =
    show text on_end (record s { state = if s.state.paused then s.state else forth s.state })
step text on_end (chimed v) s = jump text on_end v s

-- The stream and the page that listens to it.
pub record Joined : Type 0 where
  pub server : Stream
  pub page : Stage

-- The page gets the messages of the stream in their order, and other events of its own.
pub data Happening : Type 0 where
  served : Event → Happening
  happened : Message → Happening

pub deliver : Stream × List Message → Stage → Joined
deliver (s, ms) k = record { server = s; page = (run ms k).0 }

pub happen : (ℕ → String) → (ℕ → Bool) → Happening → Joined → Joined
happen text on_end (served e) j = deliver (step text on_end e j.server) j.page
happen text on_end (happened m) j = record j { page = (listen m j.page).0 }

pub happen_all : (ℕ → String) → (ℕ → Bool) → List Happening → Joined → Joined
happen_all text on_end [] j = j
happen_all text on_end (h ∷ hs) j = happen_all text on_end hs (happen text on_end h j)

-- What a page that connects is told after its view: the configuration, the names and the build.
pub greeting : Config → List (String × String) → String → List Message
greeting c ns b = config c ∷ names (some ns) ∷ version b ∷ []

pub greet : List Message → Joined → Joined
greet ms j = record j { page = (run ms j.page).0 }

-- The page connects.
pub connect :
    (ℕ → String)
    → (ℕ → Bool)
    → List Item
    → Config
    → List (String × String)
    → String
    → Stage
    → Joined
connect text on_end its c ns b k = greet (greeting c ns b) (
    deliver
      (show text on_end (record { state = new_state its; notified = false; advance = pos 30 })) k)
