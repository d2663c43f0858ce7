-- ===== src/Server/Devices.antt =====
-- The streams of the devices, internal/rotation/rotation.go: `Manager` with its connections, their signals and
-- their buffers, and the commands that reach a device by them.
mod Reached
mod Ordered
mod Tests
use Prim.Native.String.{String}
use familyplanner.Prelude.{
  ℕ, Bool, true, false, Option, none, some, List, [], ◌∷◌, ◌++◌, length, get_elem?, set,
  if◌then◌else◌, ltb, ◌==◌,
}
use familyplanner.Server.Rotation.{Item, State, new_state, Command, command}

-- `conn`, with the device that its `release` has captured.
pub record Conn : Type 0 where
  pub device : ℕ
  pub state : State
  pub notified : Bool  -- a signal is in `notify`, which holds one
  pub cmds : List String  -- what is in `cmds`, which holds eight

-- `Manager`: a pointer is the place of its connection among all that there have been.
pub record Manager : Type 0 where
  pub devices : ℕ → Option ℕ
  pub conns : List Conn

-- `NewManager`
pub new_manager : Manager
new_manager = record { devices = λ d. none; conns = [] }

-- `m.devices[d] = v`, or the deletion of `d`.
pub entry : ℕ → Option ℕ → (ℕ → Option ℕ) → ℕ → Option ℕ
entry d v t e = if e == d then v else t e

pub new_conn : ℕ → List Item → Conn
new_conn d its = record { device = d; state = new_state its; notified = false; cmds = [] }

-- `Connect`
pub connect : ℕ → List Item → Manager → Manager
connect d its m = record {
  devices = entry d (some (length m.conns)) m.devices;
  conns = m.conns ++ (new_conn d its ∷ []);
}

-- `m.devices[deviceID] == c`
pub is_entry : ℕ → Option ℕ → Bool
is_entry n none = false
is_entry n (some k) = k == n

pub release_by : Option Conn → ℕ → Manager → Manager
release_by none n m = m
release_by (some c) n m =
    if is_entry n (m.devices c.device)
    then record m { devices = entry c.device none m.devices }
    else m

-- `release`, of the connection at the place.
pub release : ℕ → Manager → Manager
release n m = release_by (get_elem? m.conns n) n m

pub change : ℕ → Conn × Bool → Manager → Manager × Bool
change n (c, b) m = (record m { conns = set m.conns n c }, b)

pub with_conn : (Conn → Conn × Bool) → ℕ → Option Conn → Manager → Manager × Bool
with_conn f n none m = (m, false)
with_conn f n (some c) m = change n (f c) m

-- What is done to the connection that `lookup` gives; without one, the answer is false.
pub with_entry : (Conn → Conn × Bool) → Option ℕ → Manager → Manager × Bool
with_entry f none m = (m, false)
with_entry f (some n) m = with_conn f n (get_elem? m.conns n) m

pub with_device : (Conn → Conn × Bool) → ℕ → Manager → Manager × Bool
with_device f d m = with_entry f (m.devices d) m

-- The playback commands and the jump, with `signal`; `none` is a text that is no command.
pub obey : Option Command → Conn → Conn × Bool
obey none c = (c, false)
obey (some k) c = (record c { state = command k c.state; notified = true }, true)

-- `Command` and `Goto`
pub issue : ℕ → Option Command → Manager → Manager × Bool
issue d k m = with_device (obey k) d m

-- A send that would block is dropped.
pub buffer : String → Conn → Conn × Bool
buffer t c =
    if ltb (length c.cmds) 8 then (record c { cmds = c.cmds ++ (t ∷ []) }, true) else (c, false)

-- `SendClientCmd`
pub send_client_cmd : ℕ → String → Manager → Manager × Bool
send_client_cmd d t m = with_device (buffer t) d m

-- The loop of a stream takes a signal or the oldest command, if there is one.
pub take_signal : Conn → Conn × Bool
take_signal c = (record c { notified = false }, c.notified)

pub oldest : List String → Option String
oldest [] = none
oldest (t ∷ ts) = some t

pub younger : List String → List String
younger [] = []
younger (t ∷ ts) = ts

pub is_some : Option String → Bool
is_some none = false
is_some (some t) = true

pub take_cmd : Conn → Conn × Bool
take_cmd c = (record c { cmds = younger c.cmds }, is_some (oldest c.cmds))

-- What pages, remotes and streams do to the manager.
pub data Op : Type 0 where
  connects : ℕ → List Item → Op
  releases : ℕ → Op
  issues : ℕ → Option Command → Op
  sends : ℕ → String → Op
  takes_signal : ℕ → Op
  takes_cmd : ℕ → Op

pub operate : Op → Manager → Manager
operate (connects d its) m = connect d its m
operate (releases n) m = release n m
operate (issues d k) m = (issue d k m).0
operate (sends d t) m = (send_client_cmd d t m).0
operate (takes_signal n) m = (with_entry take_signal (some n) m).0
operate (takes_cmd n) m = (with_entry take_cmd (some n) m).0

pub operate_all : List Op → Manager → Manager
operate_all [] m = m
operate_all (o ∷ os) m = operate_all os (operate o m)
