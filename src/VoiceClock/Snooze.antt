-- ===== src/VoiceClock/Snooze.antt =====
-- The snooze button, voiceclock.js: `snoozed`, `paintSnooze` and `fpSnooze`, with a storage that may refuse
-- to be read or to be written.
mod Painted
mod Tests
use Prim.Native.String.{String}
use familyplanner.Prelude.{Bool, true, false, Option, some, List, [], ◌∷◌, if◌then◌else◌}
use familyplanner.VoiceClock.{snoozed}

-- The kiosk, as far as the snooze goes.
pub record Kiosk : Type 0 where
  pub readable : Bool  -- `getItem` does not throw
  pub writable : Bool  -- `setItem` does not throw
  pub stored : Option String  -- "fpChimeSnooze"
  pub button : Bool  -- `ksnooze` is there
  pub icon : Bool  -- it shows that the chimes are muted
  pub speech : Bool  -- the browser can speak
  pub speaking : Bool

-- `snoozed()`
pub is_snoozed : Kiosk → Bool
is_snoozed k = if k.readable then snoozed k.stored else false

pub paint_if : Bool → Kiosk → Kiosk
paint_if true k = record k { icon = is_snoozed k }
paint_if false k = k

-- `paintSnooze()`
pub paint_snooze : Kiosk → Kiosk
paint_snooze k = paint_if k.button k

-- What `setItem` stores, which `snoozed()` is asked for in the same `try`.
pub write_if : Bool → Kiosk → Kiosk
write_if true k = record k { stored = some (if is_snoozed k then "0" else "1") }
write_if false k = k

pub hush_if : Bool → Kiosk → Kiosk
hush_if true k = record k { speaking = false }
hush_if false k = k

-- `fpSnooze()`
pub press : Kiosk → Kiosk
press k = let w = write_if k.writable k in paint_snooze (hush_if (is_snoozed w) w)

-- The script starts anew, on a page whose button the server has painted as not muted.
pub start : Kiosk → Kiosk
start k = paint_snooze (record k { icon = false; speaking = false })

-- What happens to it.
pub data Event : Type 0 where
  pressed reloaded spoke : Event

pub step : Event → Kiosk → Kiosk
step pressed k = press k
step reloaded k = start k
step spoke k = record k { speaking = k.speech }

pub run : List Event → Kiosk → Kiosk
run [] k = k
run (e ∷ es) k = run es (step e k)
