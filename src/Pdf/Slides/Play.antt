-- ===== src/Pdf/Slides/Play.antt =====
-- A slideshow PDF over time: it stays in its document, plays it through, and loses a step.
use familyplanner.Prelude.{
  ℕ, ◌+◌, ◌≤◌, ◌≡◌, refl, sym, subst, Bool, true, false, not, none, some, List, [], ◌∷◌, length,
  if◌then◌else◌, leb, ℤ, arith,
}
use familyplanner.Pdf.Slides.{
  Pdf, set_up, render_if, render, schedule_slide, load, finish, turn_if, timer_if, fire_if,
  on_timer, Event, rendered, timer_ran, step, run,
}
use familyplanner.Pdf.Slides.Valid.{IsValid, IsCame, load-IsValid, step-IsValid}

-- No answer of `getDocument` among the events.
abbrev pub IsLoadedOnce : List Event → Type 0
IsLoadedOnce [] = Unit
IsLoadedOnce (e ∷ es) = (¬ IsCame e) × IsLoadedOnce es

run-IsValid_from : (es : List Event) (s : Pdf) → IsLoadedOnce es → IsValid s → IsValid (run es s)
unfolding run
run-IsValid_from [] s h v = v
run-IsValid_from (e ∷ es) s h v = run-IsValid_from es (step e s) h.1 (step-IsValid e s h.0 v)

set_up-IsValid : (interval : ℤ) (fit end : Bool) → IsValid (set_up interval fit end)
unfolding set_up
set_up-IsValid interval fit end = record {
  from_one = omega arith;
  unloaded = λ _. refl;
  in_document = λ l. absurd (cc l);
  no_pages = λ _. refl;
  within = omega arith;
}

set_up-unloaded : (interval : ℤ) (fit end : Bool) → (set_up interval fit end).loaded ≡ false
unfolding set_up
set_up-unloaded interval fit end = refl

-- From the answer with a document of `n` pages on, whatever timers, keys, zooms and renders come, the
-- page is one of the document's and the position lies within the content.
pub opened-IsValid :
    (interval : ℤ) (fit end : Bool) (n : ℕ) (es : List Event)
    → 1 ≤ n
    → IsLoadedOnce es
    → IsValid (run es (load n (set_up interval fit end)))
opened-IsValid interval fit end n es a h =
    run-IsValid_from es (load n (set_up interval fit end)) h (
      load-IsValid n (set_up interval fit end) a (set_up-unloaded interval fit end)
        (set_up-IsValid interval fit end))

-- Page `k` of `n` is on the screen of a slideshow, its timer is set, nothing is being rendered, and
-- `onEnd`, which is there if `h` is true, was called `e` times.
pub record IsShowing (n k e : ℕ) (h : Bool) (s : Pdf) : Type 0 where
  pub slides : s.slideshow ≡ true
  pub loaded : s.loaded ≡ true
  pub counted : s.pages ≡ n
  pub page : s.page ≡ k
  pub drawn : s.drawn ≡ k ∷ []
  pub timer : s.timer ≡ true
  pub settled : s.rendering ≡ none
  pub calls : s.ended ≡ e
  pub signals : s.has_on_end ≡ h

-- The timer runs, without the focus, and the render that it starts is finished.
pub interval_over : ℕ → ℕ → Pdf → Pdf
interval_over over client s = run (timer_ran true false ∷ rendered over client ∷ []) s

-- The same state, with the fields that `IsShowing` names in their places.
abbrev showing : ℕ → ℕ → ℕ → Bool → Pdf → Pdf
showing n k e h s = record s {
  slideshow = true;
  loaded = true;
  pages = n;
  page = k;
  drawn = k ∷ [];
  timer = true;
  rendering = none;
  ended = e;
  has_on_end = h;
}

showing-eq : (n k e : ℕ) (h : Bool) (s : Pdf) → IsShowing n k e h s → showing n k e h s ≡ s
showing-eq n k e h s w = λ i. record s {
  slideshow = sym w.slides i;
  loaded = sym w.loaded i;
  pages = sym w.counted i;
  page = sym w.page i;
  drawn = sym w.drawn i;
  timer = sym w.timer i;
  rendering = sym w.settled i;
  ended = sym w.calls i;
  has_on_end = sym w.signals i;
}

finish-IsShowing :
    (over client n k e : ℕ) (h : Bool) (s : Pdf) (b : Bool)
    → IsShowing n k e h (
        finish over client (some (k ∷ [])) (record (showing n k e h s) {
          drawn = s.drawn;
          rendering = some (k ∷ []);
          fit_width = b;
        }))
unfolding finish
finish-IsShowing over client n k e h s true = record {
  slides = refl;
  loaded = refl;
  counted = refl;
  page = refl;
  drawn = refl;
  timer = refl;
  settled = refl;
  calls = refl;
  signals = refl;
}
finish-IsShowing over client n k e h s false = record {
  slides = refl;
  loaded = refl;
  counted = refl;
  page = refl;
  drawn = refl;
  timer = refl;
  settled = refl;
  calls = refl;
  signals = refl;
}

next_shown :
    (over client n k e : ℕ) (h : Bool) (s : Pdf)
    → leb n k ≡ false
    → IsShowing n (k + 1) e h (interval_over over client (showing n k e h s))
unfolding interval_over run step on_timer fire_if timer_if turn_if render render_if schedule_slide
next_shown over client n k e h s l = rw l (
    finish-IsShowing over client n (k + 1) e h
      (record s { drawn = k ∷ []; badge = some (k + 1, n) }) s.fit_width)

-- One interval after another, each with the sizes of the page that is then rendered.
pub intervals : List (ℕ × ℕ) → Pdf → Pdf
intervals [] s = s
intervals ((over, client) ∷ rs) s = intervals rs (interval_over over client s)

last_interval :
    (n k e : ℕ) (h : Bool) (s : Pdf)
    → leb n k ≡ true
    → let t = step (timer_ran true false) (showing n k e h s) in
      (t.ended ≡ (if h then e + 1 else e)) × ((t.page ≡ (if h then k else 1)) × (t.timer ≡ not h))
unfolding step on_timer fire_if timer_if turn_if render render_if schedule_slide
last_interval n k e true s l = rw l (refl, (refl, refl))
last_interval n k e false s l = rw l (refl, (refl, refl))

-- A slideshow that shows page `k` of `n` and is left alone shows, interval by interval, the pages up
-- to the last one, and `onEnd` is not called. The interval after that calls it once and sets no
-- timer, or, where there is none, goes on with page 1.
pub plays_through :
    (rs : List (ℕ × ℕ)) (n k e : ℕ) (h : Bool) (s : Pdf)
    → IsShowing n k e h s
    → k + length rs ≡ n
    → let t = step (timer_ran true false) (intervals rs s) in
      IsShowing n n e h (intervals rs s)
      × ((t.ended ≡ (if h then e + 1 else e))
          × ((t.page ≡ (if h then n else 1)) × (t.timer ≡ not h)))
unfolding intervals
plays_through [] n k e h s w l =
    let m : k ≡ n = omega arith in
    let v = subst (λ j. IsShowing n j e h s) m w in
    (
      v,
      subst
          (λ u.
            let t = step (timer_ran true false) u in
            (t.ended ≡ (if h then e + 1 else e))
            × ((t.page ≡ (if h then n else 1)) × (t.timer ≡ not h)))
          (showing-eq n n e h s v) (last_interval n n e h s (ground arith)),
    )
plays_through ((over, client) ∷ rs) n k e h s w l =
    plays_through rs n (k + 1) e h (interval_over over client s)
      (subst (λ u. IsShowing n (k + 1) e h (interval_over over client u)) (showing-eq n k e h s w)
        (next_shown over client n k e h s (ground arith)))
      (omega arith)
