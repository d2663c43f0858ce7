-- ===== src/Kiosk/Slideshow/Timer.antt =====
-- The timer of an album, kiosk.js: the part of `startSlideshows` after the step, with `tick` and
-- `__fpReset`. Every timer that was set and neither cleared nor run is in `timers`. The seed of the
-- shuffle is a variable that all albums share, so that it is given to a step and returned by it.
mod Single
mod Tests
use Prim.Native.String.{String}
use familyplanner.Prelude.{
  ℕ, zero, suc, ◌+◌, ◌*◌, max, Bool, true, false, Option, none, some, List, [], ◌∷◌, ◌++◌,
  if◌then◌else◌, ◌==◌, ℤ, pos, negsuc,
}
use familyplanner.Kiosk.Slideshow.{Show, start, step}

pub record Timer : Type 0 where
  pub id : ℕ
  pub due : ℕ  -- the millisecond that it runs at

pub record Album : Type 0 where
  pub show : Show
  pub secs : ℕ
  pub timers : List Timer
  pub handle : Option ℕ  -- `img.__fpTimer`
  pub next_timer : ℕ

-- `Math.max(2, parseInt(…, 10) || 8)`
pub secs_of : Option ℤ → ℕ
secs_of none = 8
secs_of (some (pos zero)) = 8
secs_of (some (pos (suc n))) = max 2 (suc n)
secs_of (some (negsuc n)) = 2

pub remove : ℕ → List Timer → List Timer
remove k [] = []
remove k (t ∷ ts) = let rest = remove k ts in if t.id == k then rest else t ∷ rest

pub cancel : Option ℕ → List Timer → List Timer
cancel none ts = ts
cancel (some k) ts = remove k ts

-- `img.__fpTimer = setTimeout(tick, secs * 1000)`
pub set_timer : ℕ → Album → Album
set_timer now a = record a {
  timers = a.timers ++ (record { id = a.next_timer; due = now + a.secs * 1000 } ∷ []);
  handle = some a.next_timer;
  next_timer = a.next_timer + 1;
}

-- `img.__fpReset()`
pub reset : ℕ → Album → Album
reset now a = set_timer now (record a { timers = cancel a.handle a.timers })

pub stepped : ℤ → ℕ → Album → Album × ℕ
stepped dir seed a = let (s, seed') = step dir a.show seed in (record a { show = s }, seed')

-- `tick()`, with the image in the document or not.
pub tick : Bool → ℕ → ℕ → Album → Album × ℕ
tick false now seed a = (record a { timers = cancel a.handle a.timers; handle = none }, seed)
tick true now seed a = let (b, seed') = stepped (pos 1) seed a in (set_timer now b, seed')

pub has : ℕ → List Timer → Bool
has k [] = false
has k (t ∷ ts) = let rest = has k ts in if t.id == k then true else rest

pub run_if : Bool → ℕ → Bool → ℕ → ℕ → Album → Album × ℕ
run_if false k attached now seed a = (a, seed)
run_if true k attached now seed a = tick attached now seed (record a { timers = remove k a.timers })

-- The timer `k` runs, where it was set.
pub run_timer : ℕ → Bool → ℕ → ℕ → Album → Album × ℕ
run_timer k attached now seed a = run_if (has k a.timers) k attached now seed a

-- A key of the focused widget: a step, and the timer begins anew.
pub manual_step : ℤ → ℕ → ℕ → Album → Album × ℕ
manual_step dir now seed a = let (b, seed') = stepped dir seed a in (reset now b, seed')

pub opened : ℕ → Option ℤ → Option (Show × ℕ) → Option (Album × ℕ)
opened now secs none = none
opened now secs (some (s, seed)) = some (
  set_timer now
      (record { show = s; secs = secs_of secs; timers = []; handle = none; next_timer = 0 }),
  seed,
)

-- `startSlideshows`, for one image that has no step yet.
pub start_slideshow : ℕ → Option ℤ → List String → List String → ℕ → Option (Album × ℕ)
start_slideshow now secs urls caps seed = opened now secs (start urls caps seed)
