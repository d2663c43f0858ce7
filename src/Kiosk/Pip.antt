-- ===== src/Kiosk/Pip.antt =====
-- The corner picture of kiosk.js: a second playlist that the page rotates by itself. Fetches and
-- timers are explicit: a fetch waits in `pending` for its answer, and every timer that was set and
-- neither cleared nor run is in `timers`, also when `pipTimer` no longer holds it.
pub mod Index
mod Rotation
mod Races
mod Leaks
mod Walk
mod Errors
mod Tests
use Prim.Native.String.{String}
use familyplanner.Prelude.{
  ℕ, zero, suc, ◌+◌, ◌*◌, Bool, true, false, not, ◌&&◌, ◌||◌, Option, none, some, List, [], ◌∷◌,
  ◌++◌, if◌then◌else◌, ◌==◌, length, get_elem?, ℤ, pos, negsuc, ◌+ℤ◌, ◌-ℤ◌, rem_ℤ, eqb_ℤ, max_ℤ,
  pos_part,
}
use text.Mathlib.Text.{◌==◌ as str_eq}
use familyplanner.Kiosk.State.{is_positive}

-- An entry of the playlist as the server sends it.
pub record Item : Type 0 where
  pub id : String
  pub dwell : ℤ
  pub on_end : Bool

-- What the queries find in a view that was put into the corner, and its video players.
pub record Content : Type 0 where
  pub video : Bool
  pub pdf : Option ℤ  -- the interval of the first `.w-pdf`
  pub players : ℕ  -- controllers that `fpVideosIn` returns

pub record Pip : Type 0 where
  pub corner : Bool  -- the page has a `.kpip`
  pub built : Bool  -- `kpipBody` is there
  pub displayed : Bool  -- `kpip.style.display` is not "none"
  pub hidden : Bool  -- `pipHidden`
  pub items : List Item
  pub idx : ℕ
  pub pending : List Item  -- fetches in flight, oldest first
  pub shown : Option Item  -- the view in the body
  pub players : ℕ
  pub timers : List ℕ  -- the timers that will run
  pub handle : Option ℕ  -- `pipTimer`
  pub next_timer : ℕ
  pub delay : ℕ  -- the milliseconds that the last timer was set to
  pub bar : Option ℕ  -- the milliseconds in which the progress bar fills up; none where it is empty

pub remove : ℕ → List ℕ → List ℕ
remove k [] = []
remove k (x ∷ xs) = let rest = remove k xs in if x == k then rest else x ∷ rest

pub clear : Option ℕ → List ℕ → List ℕ
clear none ts = ts
clear (some k) ts = remove k ts

-- `clearTimeout(pipTimer)`
pub clear_timer : Pip → Pip
clear_timer s = record s { timers = clear s.handle s.timers }

-- `pipTimer = setTimeout(pipNext, ms)`
pub set_timer : ℕ → Pip → Pip
set_timer ms s = record s {
  timers = s.timers ++ (s.next_timer ∷ []);
  handle = some s.next_timer;
  next_timer = s.next_timer + 1;
  delay = ms;
}

pub stop_players : Pip → Pip
stop_players s = record s { players = 0 }

-- `(i % n + n) % n`
pub wrap : ℤ → ℕ → ℕ
wrap i n = pos_part (rem_ℤ (rem_ℤ i n +ℤ pos n) n)

pub fetch : Option Item → Pip → Pip
fetch none s = s
fetch (some item) s = record s { pending = s.pending ++ (item ∷ []) }

-- `pipRotate(i)` with a body and a playlist, up to the fetch.
pub turn : ℤ → Pip → Pip
turn i s =
    let k = wrap i (length s.items) in
    fetch (get_elem? s.items k) (stop_players (clear_timer (record s { idx = k })))

pub is_unlisted : List Item → Bool
is_unlisted [] = true
is_unlisted (x ∷ xs) = false

pub rotate_unless : Bool → ℤ → Pip → Pip
rotate_unless true i s = s
rotate_unless false i s = turn i s

-- `pipRotate(i)`, up to the fetch.
pub rotate : ℤ → Pip → Pip
rotate i s = rotate_unless (not s.built || is_unlisted s.items) i s

pub pip_next : Pip → Pip
pip_next s = rotate (pos s.idx +ℤ pos 1) s

pub pip_prev : Pip → Pip
pip_prev s = rotate (pos s.idx -ℤ pos 1) s

abbrev pub is_slideshow : Option ℤ → Bool
is_slideshow none = false
is_slideshow (some n) = is_positive n

-- Whether the view itself will call for the next one.
pub ends_itself : Item → Content → Bool
ends_itself item c = item.on_end && (c.video || is_slideshow c.pdf)

-- `Math.max(3, item.dwell) * 1000`
pub dwell_ms : Item → ℕ
dwell_ms item = pos_part (max_ℤ (pos 3) item.dwell) * 1000

pub put : Item → Content → Pip → Pip
put item c s = record s { shown = some item; players = c.players }

abbrev pub bar_of : ℕ → Option ℕ
bar_of zero = none
bar_of (suc n) = some (suc n)

-- `pipProgress`, of the body's own bar.
abbrev pub pip_progress : ℕ → Pip → Pip
pip_progress ms s = record s { bar = bar_of ms }

-- With a body, and whether the view ends itself.
pub show_if : Bool → Bool → Item → Content → Pip → Pip
show_if false b item c s = set_timer 10000 s
show_if true true item c s = pip_progress 0 (put item c s)
show_if true false item c s =
    set_timer (dwell_ms item) (pip_progress (dwell_ms item) (put item c s))

-- A fetch that came back with a page. Where the corner was emptied meanwhile, the script throws and
-- its handler of errors sets the timer.
pub show : Item → Content → Pip → Pip
show item c s = show_if s.built (ends_itself item c) item c s

pub data Answer : Type 0 where
  page : Content → Answer
  failed : Answer

pub settle : Option Item → Answer → Pip → Pip
settle none a s = s
settle (some item) failed s = set_timer 10000 s
settle (some item) (page c) s = show item c s

pub remove_at {ℓ} : {A : Type ℓ} → ℕ → List A → List A
remove_at k [] = []
remove_at zero (x ∷ xs) = xs
remove_at (suc k) (x ∷ xs) = x ∷ remove_at k xs

-- The answer to the fetch at place `k` of those in flight.
pub answer : ℕ → Answer → Pip → Pip
answer k a s = settle (get_elem? s.pending k) a (record s { pending = remove_at k s.pending })

pub hide : Pip → Pip
hide s = record s { displayed = false; built = false; shown = none; bar = none }

pub build : Pip → Pip
build s = record s {
  built = true;
  shown = if s.built then s.shown else none;
  displayed = not s.hidden;
  bar = if s.built then s.bar else none;
}

pub start_with : List Item → Pip → Pip
start_with [] s = hide s
start_with (x ∷ xs) s = rotate (pos 0) (build s)

pub start_if : Bool → List Item → Pip → Pip
start_if false items s = s
start_if true items s = start_with items s

-- `pipStart(items)`
pub start : List Item → Pip → Pip
start items s = start_if s.corner items (stop_players (clear_timer (record s { items = items })))

pub same_item : Item → Item → Bool
same_item a b =
    str_eq a.id b.id && (eqb_ℤ a.dwell b.dwell && (if a.on_end then b.on_end else not b.on_end))

-- Equal texts of two lists.
pub same_items : List Item → List Item → Bool
same_items [] [] = true
same_items (a ∷ as₁) (b ∷ bs) = same_item a b && same_items as₁ bs
same_items _ _ = false

pub start_unless : Bool → List Item → Pip → Pip
start_unless true items s = s
start_unless false items s = start items s

-- The `pip` event, with the list that its data stands for (none, if it does not parse).
pub on_pip : List Item → Pip → Pip
on_pip items s = start_unless (same_items items s.items) items s

pub toggle_if : Bool → Pip → Pip
toggle_if false s = s
toggle_if true s = record s { hidden = not s.hidden; displayed = s.hidden }

-- `fpPip.toggle`
pub toggle : Pip → Pip
toggle s = toggle_if s.corner s

abbrev pub has : ℕ → List ℕ → Bool
has k [] = false
has k (x ∷ xs) = x == k || has k xs

pub due_if : Bool → ℕ → Pip → Pip
due_if false k s = s
due_if true k s = pip_next (record s { timers = remove k s.timers })

-- A timer that is due runs `pipNext`, and is gone.
pub timer_due : ℕ → Pip → Pip
timer_due k s = due_if (has k s.timers) k s

pub data Event : Type 0 where
  playlist : List Item → Event
  next prev toggled ended : Event
  due : ℕ → Event
  arrived : ℕ → Answer → Event

-- `ended`: the video or the PDF in the corner calls for the next view.
pub step : Event → Pip → Pip
step (playlist items) s = on_pip items s
step next s = pip_next s
step prev s = pip_prev s
step ended s = pip_next s
step toggled s = toggle s
step (due k) s = timer_due k s
step (arrived k a) s = answer k a s

pub run : List Event → Pip → Pip
run [] s = s
run (e ∷ es) s = run es (step e s)
