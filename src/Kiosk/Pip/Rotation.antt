-- ===== src/Kiosk/Pip/Rotation.antt =====
-- The corner's rotation: the index is in range, and a view per dwell in the playlist's order.
use familyplanner.Prelude.{
  ℕ, ◌<◌, ◌≡◌, refl, sym, ◌∙◌, Bool, true, false, not, ◌||◌, Option, none, some, List, [], ◌∷◌,
  arith, length, get_elem?, ℤ, pos, ◌+ℤ◌, ◌-ℤ◌,
}
use familyplanner.Kiosk.Pip.{
  Item, Content, Pip, clear_timer, set_timer, stop_players, wrap, fetch, turn, rotate,
  rotate_unless, is_unlisted, pip_next, pip_prev, ends_itself, put, show, show_if, Answer, page,
  failed, settle, answer, hide, build, start, start_with, start_if, start_unless, same_items,
  on_pip, toggle, toggle_if, timer_due, due_if, Event, playlist, next, prev, toggled, ended, due,
  arrived, step, run, remove_at, remove, has,
}
use familyplanner.Kiosk.Pip.Index.{wrap-lt}

-- While there is a body there are a corner and a playlist, and the index lies in it.
pub record IsValid (s : Pip) : Type 0 where
  pub listed : s.built ≡ true → 0 < length s.items
  pub within : s.built ≡ true → s.idx < length s.items
  pub cornered : s.built ≡ true → s.corner ≡ true

set_timer-IsValid : (ms : ℕ) (s : Pip) → IsValid s → IsValid (set_timer ms s)
unfolding set_timer
set_timer-IsValid ms s v = record { listed = v.listed; within = v.within; cornered = v.cornered }

fetch-IsValid : (item : Option Item) (s : Pip) → IsValid s → IsValid (fetch item s)
unfolding fetch
fetch-IsValid none s v = v
fetch-IsValid (some item) s v = record {
  listed = v.listed;
  within = v.within;
  cornered = v.cornered;
}

turn-IsValid :
    (i : ℤ) (s : Pip)
    → (s.built ≡ true → 0 < length s.items)
    → (s.built ≡ true → s.corner ≡ true)
    → IsValid (turn i s)
unfolding turn stop_players clear_timer
turn-IsValid i s l c =
    let k = wrap i (length s.items) in
    fetch-IsValid (get_elem? s.items k) (stop_players (clear_timer (record s { idx = k })))
      (record { listed = l; within = λ b. wrap-lt i (length s.items) (l b); cornered = c })

rotate_unless-IsValid : (b : Bool) (i : ℤ) (s : Pip) → IsValid s → IsValid (rotate_unless b i s)
unfolding rotate_unless
rotate_unless-IsValid true i s v = v
rotate_unless-IsValid false i s v = turn-IsValid i s v.listed v.cornered

rotate-IsValid : (i : ℤ) (s : Pip) → IsValid s → IsValid (rotate i s)
unfolding rotate
rotate-IsValid i s v = rotate_unless-IsValid (not s.built || is_unlisted s.items) i s v

next-IsValid : (s : Pip) → IsValid s → IsValid (pip_next s)
unfolding pip_next
next-IsValid s v = rotate-IsValid (pos s.idx +ℤ pos 1) s v

show_if-IsValid :
    (b e : Bool) (item : Item) (c : Content) (s : Pip) → IsValid s → IsValid (show_if b e item c s)
unfolding show_if put set_timer
show_if-IsValid false e item c s v = set_timer-IsValid 10000 s v
show_if-IsValid true true item c s v = record {
  listed = v.listed;
  within = v.within;
  cornered = v.cornered;
}
show_if-IsValid true false item c s v = record {
  listed = v.listed;
  within = v.within;
  cornered = v.cornered;
}

settle-IsValid : (i : Option Item) (a : Answer) (s : Pip) → IsValid s → IsValid (settle i a s)
unfolding settle show
settle-IsValid none a s v = v
settle-IsValid (some item) failed s v = set_timer-IsValid 10000 s v
settle-IsValid (some item) (page c) s v = show_if-IsValid s.built (ends_itself item c) item c s v

build-IsValid :
    (items : List Item) (s : Pip)
    → s.corner ≡ true
    → IsValid (start_with items (stop_players (clear_timer (record s { items = items }))))
unfolding start_with hide build rotate rotate_unless is_unlisted stop_players clear_timer
build-IsValid [] s c = record {
  listed = λ b. absurd (cc b);
  within = λ b. absurd (cc b);
  cornered = λ b. absurd (cc b);
}
build-IsValid (x ∷ xs) s c =
    turn-IsValid (pos 0) (build (stop_players (clear_timer (record s { items = x ∷ xs }))))
      (λ _. omega arith) (λ _. c)

start_if-IsValid :
    (b : Bool) (items : List Item) (s : Pip)
    → s.corner ≡ b
    → IsValid s
    → IsValid (start_if b items (stop_players (clear_timer (record s { items = items }))))
unfolding start_if stop_players clear_timer
start_if-IsValid false items s c v =
    let no : s.built ≡ true → false ≡ true = λ b. sym c ∙ v.cornered b in
    record {
      listed = λ b. absurd (cc (no b));
      within = λ b. absurd (cc (no b));
      cornered = v.cornered;
    }
start_if-IsValid true items s c v = build-IsValid items s c

start-IsValid : (items : List Item) (s : Pip) → IsValid s → IsValid (start items s)
unfolding start
start-IsValid items s v = start_if-IsValid s.corner items s refl v

start_unless-IsValid :
    (b : Bool) (items : List Item) (s : Pip) → IsValid s → IsValid (start_unless b items s)
unfolding start_unless
start_unless-IsValid true items s v = v
start_unless-IsValid false items s v = start-IsValid items s v

toggle_if-IsValid : (b : Bool) (s : Pip) → IsValid s → IsValid (toggle_if b s)
unfolding toggle_if
toggle_if-IsValid false s v = v
toggle_if-IsValid true s v = record { listed = v.listed; within = v.within; cornered = v.cornered }

due_if-IsValid : (b : Bool) (k : ℕ) (s : Pip) → IsValid s → IsValid (due_if b k s)
unfolding due_if
due_if-IsValid false k s v = v
due_if-IsValid true k s v =
    next-IsValid (record s { timers = remove k s.timers })
      (record { listed = v.listed; within = v.within; cornered = v.cornered })

step-IsValid : (e : Event) (s : Pip) → IsValid s → IsValid (step e s)
unfolding step on_pip toggle timer_due pip_prev answer
step-IsValid (playlist items) s v = start_unless-IsValid (same_items items s.items) items s v
step-IsValid next s v = next-IsValid s v
step-IsValid prev s v = rotate-IsValid (pos s.idx -ℤ pos 1) s v
step-IsValid ended s v = next-IsValid s v
step-IsValid toggled s v = toggle_if-IsValid s.corner s v
step-IsValid (due k) s v = due_if-IsValid (has k s.timers) k s v
step-IsValid (arrived k a) s v =
    settle-IsValid (get_elem? s.pending k) a (record s { pending = remove_at k s.pending })
      (record { listed = v.listed; within = v.within; cornered = v.cornered })

-- Whatever playlists, keys, timers and answers come, in any order: while the corner has a body, its
-- playlist is not empty and its index lies in the playlist.
pub corner-IsValid : (es : List Event) (s : Pip) → IsValid s → IsValid (run es s)
unfolding run
corner-IsValid [] s v = v
corner-IsValid (e ∷ es) s v = corner-IsValid es (step e s) (step-IsValid e s v)
