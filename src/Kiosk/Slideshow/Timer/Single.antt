-- ===== src/Kiosk/Slideshow/Timer/Single.antt =====
-- An album has one timer, and a key puts it off.
use familyplanner.Prelude.{
  ℕ, ◌+◌, ◌*◌, ◌≡◌, refl, sym, ◌∙◌, ap, subst, arith, Bool, true, false, Option, none, some, List,
  [], ◌∷◌, ◌++◌, ◌==◌, ℤ, pos,
}
use familyplanner.Kiosk.Slideshow.Timer.{
  Timer, Album, remove, cancel, set_timer, reset, stepped, tick, has, run_if, run_timer,
  manual_step,
}

pub data Event : Type 0 where
  ran : ℕ → Bool → ℕ → ℕ → Event
  key : ℤ → ℕ → ℕ → Event

pub react : Event → Album → Album
react (ran k attached now seed) a = (run_timer k attached now seed a).0
react (key dir now seed) a = (manual_step dir now seed a).0

pub react_all : List Event → Album → Album
react_all [] a = a
react_all (e ∷ es) a = react_all es (react e a)

-- No timer, or just the one that the script can clear.
pub data IsSingle : List Timer → Option ℕ → Type 0 where
  idle : (h : Option ℕ) → IsSingle [] h
  armed : (k due : ℕ) → IsSingle (record { id = k; due = due } ∷ []) (some k)

cancel-IsSingle : (ts : List Timer) (h : Option ℕ) → IsSingle ts h → cancel h ts ≡ []
unfolding cancel remove
cancel-IsSingle _ none (idle h) = refl
cancel-IsSingle _ (some k) (idle h) = refl
cancel-IsSingle _ _ (armed k due) = let e : (k == k) ≡ true = ground arith in rw e refl

set_timer-IsSingle :
    (now : ℕ) (a : Album) → a.timers ≡ [] → let c = set_timer now a in IsSingle c.timers c.handle
unfolding set_timer
set_timer-IsSingle now a e = rw e (armed a.next_timer (now + a.secs * 1000))

tick-IsSingle :
    (attached : Bool) (now seed : ℕ) (a : Album)
    → a.timers ≡ []
    → let c = (tick attached now seed a).0 in IsSingle c.timers c.handle
unfolding tick stepped
tick-IsSingle false now seed a e =
    subst (λ ts. IsSingle ts none)
      (sym (ap (cancel a.handle) e ∙ cancel-IsSingle [] a.handle (idle a.handle))) (idle none)
tick-IsSingle true now seed a e = set_timer-IsSingle now (stepped (pos 1) seed a).0 e

ran_out :
    (k : ℕ) (ts : List Timer) (h : Option ℕ) → IsSingle ts h → has k ts ≡ true → remove k ts ≡ []
unfolding has remove
ran_out k _ _ (idle h) e = refl
ran_out k _ _ (armed j due) e = ground arith

run_if-IsSingle :
    (b : Bool) (k : ℕ) (attached : Bool) (now seed : ℕ) (a : Album)
    → has k a.timers ≡ b
    → IsSingle a.timers a.handle
    → let c = (run_if b k attached now seed a).0 in IsSingle c.timers c.handle
unfolding run_if
run_if-IsSingle false k attached now seed a e v = v
run_if-IsSingle true k attached now seed a e v =
    tick-IsSingle attached now seed (record a { timers = remove k a.timers })
      (ran_out k a.timers a.handle v e)

manual-timers :
    (dir : ℤ) (now seed : ℕ) (a : Album)
    → IsSingle a.timers a.handle
    → (manual_step dir now seed a).0.timers
      ≡ record { id = a.next_timer; due = now + a.secs * 1000 } ∷ []
unfolding manual_step stepped reset set_timer
manual-timers dir now seed a v =
    ap (λ ts. ts ++ (record { id = a.next_timer; due = now + a.secs * 1000 } ∷ []))
      (cancel-IsSingle a.timers a.handle v)

react-IsSingle :
    (e : Event) (a : Album)
    → IsSingle a.timers a.handle
    → let c = react e a in IsSingle c.timers c.handle
unfolding react run_timer manual_step reset set_timer stepped
react-IsSingle (ran k attached now seed) a v =
    run_if-IsSingle (has k a.timers) k attached now seed a refl v
react-IsSingle (key dir now seed) a v =
    subst (λ ts. IsSingle ts (some a.next_timer)) (sym (manual-timers dir now seed a v))
      (armed a.next_timer (now + a.secs * 1000))

react_all-IsSingle :
    (es : List Event) (a : Album)
    → IsSingle a.timers a.handle
    → let c = react_all es a in IsSingle c.timers c.handle
unfolding react_all
react_all-IsSingle [] a v = v
react_all-IsSingle (e ∷ es) a v = react_all-IsSingle es (react e a) (react-IsSingle e a v)

react-secs : (e : Event) (a : Album) → (react e a).secs ≡ a.secs
unfolding react run_timer run_if tick stepped set_timer manual_step reset
react-secs (ran k attached now seed) a = run_if-secs (has k a.timers) attached
  where
    run_if-secs : (b attached : Bool) → (run_if b k attached now seed a).0.secs ≡ a.secs
    run_if-secs false attached = refl
    run_if-secs true false = refl
    run_if-secs true true = refl
react-secs (key dir now seed) a = refl

react_all-secs : (es : List Event) (a : Album) → (react_all es a).secs ≡ a.secs
unfolding react_all
react_all-secs [] a = refl
react_all-secs (e ∷ es) a = react_all-secs es (react e a) ∙ react-secs e a

-- However timers and keys followed one another on an album with one timer, after a key at `now` the
-- album has one timer again, which runs `secs` seconds later: no photo comes by itself before.
pub manual_puts_off :
    (es : List Event) (dir : ℤ) (now seed : ℕ) (a : Album)
    → IsSingle a.timers a.handle
    → (manual_step dir now seed (react_all es a)).0.timers
      ≡ record { id = (react_all es a).next_timer; due = now + a.secs * 1000 } ∷ []
manual_puts_off es dir now seed a v =
    let b = react_all es a in
    manual-timers dir now seed b (react_all-IsSingle es a v)
    ∙ ap (λ n. record { id = b.next_timer; due = now + n * 1000 } ∷ []) (react_all-secs es a)
