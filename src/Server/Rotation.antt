-- ===== src/Server/Rotation.antt =====
-- The rotation of one device, internal/rotation/rotation.go: the playback `State`, and the commands of
-- `Manager` that change it.
pub mod Cursor
pub mod Present
use familyplanner.Prelude.{
  ℕ, zero, suc, ◌+◌, ◌-◌, ◌%◌, Bool, true, false, Option, none, some, List, [], ◌∷◌, length,
  get_elem?, if◌then◌else◌, ltb, leb, ◌==◌, ℤ, pos,
}

-- `Item`: a view, whose id is not 0, and its dwell in seconds.
pub record Item : Type 0 where
  pub view : ℕ
  pub dwell : ℤ

-- `State`; the index is never negative.
pub record State : Type 0 where
  pub items : List Item
  pub index : ℕ
  pub paused : Bool
  pub override : ℕ  -- 0 = none

-- `NewState`
unfoldable pub new_state : List Item → State
new_state its = record { items = its; index = 0; paused = false; override = 0 }

-- `SetItems`
unfoldable pub set_items : List Item → State → State
set_items its s = record s { items = its; index = if leb (length its) s.index then 0 else s.index }

-- `Current`, which also takes an index that is out of range back to 0.
unfoldable pub in_range : State → State
in_range s = record s { index = if leb (length s.items) s.index then 0 else s.index }

unfoldable pub current_if : ℕ → State → State × Option Item
current_if (suc v) s = (s, some (record { view = suc v; dwell = pos 0 }))
current_if zero s =
    if length s.items == 0 then (s, none) else (in_range s, get_elem? s.items (in_range s).index)

unfoldable pub current : State → State × Option Item
current s = current_if s.override s

-- `Next` and `Prev`
unfoldable pub next : State → State
next s = record s {
  override = 0;
  index = if ltb 0 (length s.items) then (s.index + 1) % length s.items else s.index;
}

unfoldable pub prev : State → State
prev s = record s {
  override = 0;
  index =
      if ltb 0 (length s.items) then (s.index + length s.items - 1) % length s.items else s.index;
}

abbrev pub later : Option ℕ → Option ℕ
later none = none
later (some i) = some (suc i)

-- The place of the first item with a view.
unfoldable pub place_of : ℕ → List Item → Option ℕ
place_of v [] = none
place_of v (it ∷ its) = let rest = place_of v its in if it.view == v then some 0 else later rest

unfoldable pub go_if : ℕ → Option ℕ → State → State
go_if v (some i) s = record s { index = i; override = 0 }
go_if v none s = record s { override = v }

-- `Goto`
unfoldable pub go_to : ℕ → State → State
go_to v s = go_if v (place_of v s.items) s

-- `SetPaused`
unfoldable pub set_paused : Bool → State → State
set_paused p s = record s { paused = p }

-- `Manager.Command` and `Manager.Goto`, for a connected device.
pub data Command : Type 0 where
  cmd_next cmd_prev cmd_pause cmd_resume : Command
  cmd_goto : ℕ → Command

unfoldable pub command : Command → State → State
command cmd_next s = next s
command cmd_prev s = prev s
command cmd_pause s = set_paused true s
command cmd_resume s = set_paused false s
command (cmd_goto v) s = set_paused true (go_to v s)
