-- ===== src/VoiceClock/Audio.antt =====
-- The audio context, voiceclock.js: `audio` and `unlock`. Whether a new context may play at once is the
-- browser's choice, and it may suspend one at any time. `ctx.resume()` counts from the call on, as in a
-- browser that grants it.
mod Single
use familyplanner.Prelude.{ℕ, ◌+◌, Bool, true, false, Option, none, some, List, [], ◌∷◌}

pub record Output : Type 0 where
  pub supported : Bool  -- the browser has `AudioContext`
  pub running : Option Bool  -- the context `ctx`, and whether it is not suspended
  pub created : ℕ  -- the contexts that were made
  pub listening : Bool  -- `unlock` listens for a pointer and for a key

pub create_if : Bool → Bool → Output → Output
create_if false plays o = o
create_if true plays o = record o { running = some plays; created = o.created + 1 }

pub create_unless : Option Bool → Bool → Output → Output
create_unless none plays o = create_if o.supported plays o
create_unless (some r) plays o = o

pub resume : Option Bool → Option Bool
resume none = none
resume (some r) = some true

-- `audio()`, where a new context `plays` at once or is suspended
pub audio : Bool → Output → Output
audio plays o = let p = create_unless o.running plays o in record p { running = resume p.running }

pub unlock_if : Bool → Bool → Output → Output
unlock_if false plays o = o
unlock_if true plays o = record (audio plays o) { listening = false }

-- `unlock`, at a pointer or a key
pub unlock : Bool → Output → Output
unlock plays o = unlock_if o.listening plays o

pub data Event : Type 0 where
  chimed touched : Bool → Event
  suspended : Event

pub suspend : Option Bool → Option Bool
suspend none = none
suspend (some r) = some false

pub step : Event → Output → Output
step (chimed plays) o = audio plays o
step (touched plays) o = unlock plays o
step suspended o = record o { running = suspend o.running }

pub run : List Event → Output → Output
run [] o = o
run (e ∷ es) o = run es (step e o)
