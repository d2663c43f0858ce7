-- ===== src/Pdf/Roll/Pace.antt =====
-- The pace of a page that nobody touches.
use familyplanner.Prelude.{
  ℕ, ◌+◌, ◌-◌, ◌*◌, ◌<◌, ◌≤◌, ◌≡◌, refl, sym, ◌∙◌, ap, arith, min, true, false, some, List, [], ◌∷◌,
  ◌++◌, ltb,
}
use native.Mathlib.Nat.{mul-add}
use mathlib.Core.Option.{some-injective}
use familyplanner.Pdf.Roll.{
  period, Roll, auto_scroll, begin, roll_to, roll_if, frame_if, frame_unless, frame, slide_ms,
  Slide, schedule_slide, begin_if, drawn, Event, turned, finished, framed, step, run,
}

-- Frames at the times of a list, on a page that is in the document and without the focus.
pub frames : ℕ → List ℕ → Roll → Roll
frames over [] r = r
frames over (t ∷ ts) r = frames over ts (frame true false over t r)

abbrev rolling : ℕ → ℕ → ℕ → Roll
rolling interval s top = record { interval = interval; begun = some s; top = top; requested = true }

frame-rolling :
    (t s over interval top : ℕ)
    → 4 < over
    → frame true false over t (rolling interval s top)
      ≡ rolling interval s (over * min (period interval) (t - s))
unfolding frame frame_unless frame_if roll_if roll_to begin
frame-rolling t s over interval top h = let e : ltb 4 over ≡ true = ground arith in rw e refl

frames-rolling :
    (ts : List ℕ) (t s over interval top : ℕ)
    → 4 < over
    → frames over (ts ++ (t ∷ [])) (rolling interval s top)
      ≡ rolling interval s (over * min (period interval) (t - s))
unfolding frames
frames-rolling [] t s over interval top h = frame-rolling t s over interval top h
frames-rolling (u ∷ ts) t s over interval top h =
    ap (frames over (ts ++ (t ∷ []))) (frame-rolling u s over interval top h)
    ∙ frames-rolling ts t s over interval (over * min (period interval) (u - s)) h

first-frame :
    (s over : ℕ) (r : Roll)
    → 4 < over
    → frame true false over s (auto_scroll true true r)
      ≡ rolling r.interval s (over * min (period r.interval) (s - s))
unfolding frame frame_unless frame_if roll_if roll_to begin auto_scroll
first-frame s over r h = let e : ltb 4 over ≡ true = ground arith in rw e refl

-- A page that was put on the screen and has its first frame at `s` stands, at a later frame at `t`, at
-- the part of its overflow that the time since `s` is of the interval, and from the end of the interval
-- on at its bottom.
pub rolls_to :
    (s t over : ℕ) (ts : List ℕ) (r : Roll)
    → 4 < over
    → (frames over (s ∷ (ts ++ (t ∷ []))) (auto_scroll true true r)).top
      ≡ over * min (period r.interval) (t - s)
unfolding frames
rolls_to s t over ts r h =
    ap (λ q. (frames over (ts ++ (t ∷ [])) q).top) (first-frame s over r h)
    ∙ ap (λ q. q.top)
        (frames-rolling ts t s over r.interval (over * min (period r.interval) (s - s)) h)

-- The frames of the page beside its timer.
abbrev pub framings : ℕ → List ℕ → List Event
framings over [] = []
framings over (t ∷ ts) = framed true false over t ∷ framings over ts

run-framings :
    (over : ℕ) (ts : List ℕ) (x : Slide)
    → ((run (framings over ts) x).roll ≡ frames over ts x.roll)
      × ((run (framings over ts) x).due ≡ x.due)
unfolding run step frames
run-framings over [] x = (refl, refl)
run-framings over (t ∷ ts) x =
    run-framings over ts (record x { roll = frame true false over t x.roll })

paced :
    (begun s t over d p : ℕ)
    → begun ≤ s
    → s ≤ t
    → t ≤ d
    → d ≡ begun + p
    → over * min p (t - s) + over * ((s - begun) + (d - t)) ≡ over * p
paced begun s t over d p h l m e =
    let k : min p (t - s) + ((s - begun) + (d - t)) ≡ p = omega arith in
    sym (mul-add over (min p (t - s)) ((s - begun) + (d - t))) ∙ ap (λ n. over * n) k

-- A page of a slideshow begins to be drawn at `begun`, as its timer is set, and has its first frame at `s`,
-- when it has been drawn. At every frame `t` until the timer runs, what the page is short of its bottom is
-- exactly what it scrolls in the time of drawing and in the time that is left to the timer: when the timer
-- runs, what it scrolls in the time of drawing has not been shown.
pub cut_off :
    (begun s t over d : ℕ) (ts : List ℕ) (x : Slide)
    → 4 < over
    → begun ≤ s
    → s ≤ t
    → let y = run (turned begun ∷ finished true true ∷ framings over (s ∷ (ts ++ (t ∷ [])))) x in
      y.due ≡ some d
      → t ≤ d
      → y.roll.top + over * ((s - begun) + (d - t)) ≡ over * period x.roll.interval
unfolding run step schedule_slide drawn begin_if slide_ms period
cut_off begun s t over d ts x h l m e q =
    let y = record x {
      roll = auto_scroll true true (record x.roll { top = 0 });
      due = some (begun + slide_ms x.roll.interval);
    } in
    let runs = run-framings over (s ∷ (ts ++ (t ∷ []))) y in
    let due_then : d ≡ begun + period x.roll.interval = sym (some-injective _ _ (sym runs.1 ∙ e)) in
    let stands = ap (λ r. r.top) runs.0 ∙ rolls_to s t over ts (record x.roll { top = 0 }) h in
    ap (λ n. n + over * ((s - begun) + (d - t))) stands
    ∙ paced begun s t over d (period x.roll.interval) l m q due_then
