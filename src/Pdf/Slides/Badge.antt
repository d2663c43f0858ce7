-- ===== src/Pdf/Slides/Badge.antt =====
-- The number of the page that a slideshow shows beside it.
use familyplanner.Prelude.{
  ℕ, ◌+◌, ◌≡◌, refl, Bool, true, false, ◌&&◌, Option, none, some, List, [], ◌∷◌, ◌-◌, ◌<◌, subst,
  arith, ℤ, leb, ltb, if◌then◌else◌,
}
use familyplanner.Kiosk.State.{is_positive}
use familyplanner.Pdf.Slides.{
  next_page, load, set_up, start_slides, Pdf, render_if, render, schedule_slide, finish, give_up,
  to_page, turn_if, timer_if, fire_if, on_timer, show_page, page_down, page_up, step_if, pdf_step,
  scroll_unless, scroll_page, scroll_if, pdf_scroll, Event, came, rendered, render_failed,
  timer_ran, scrolled, stepped, zoomed, step, run,
}

-- The page that the text names.
abbrev pub named : Option (ℕ × ℕ) → List ℕ
named none = []
named (some (k, n)) = k ∷ []

abbrev pub IsOf : Option (ℕ × ℕ) → ℕ → Type 0
IsOf none pages = Unit
IsOf (some (k, n)) pages = n ≡ pages

-- While a render is in progress the text names the page that it draws, and otherwise the one on the
-- screen.
abbrev pub Names : Option (List ℕ) → List ℕ → Option (ℕ × ℕ) → Type 0
Names none drawn badge = drawn ≡ named badge
Names (some ns) drawn badge = ns ≡ named badge

abbrev pub IsLabelled : Pdf → Type 0
IsLabelled s = (s.slideshow ≡ true) × (Names s.rendering s.drawn s.badge × IsOf s.badge s.pages)

if-IsLabelled :
    (b : Bool) (s t : Pdf) → IsLabelled s → IsLabelled t → IsLabelled (if b then s else t)
if-IsLabelled true s t g h = g
if-IsLabelled false s t g h = h

render_if-IsLabelled :
    (b : Bool) (r : Option (List ℕ)) (s : Pdf) → IsLabelled s → IsLabelled (render_if b r s)
unfolding render_if
render_if-IsLabelled false r s h = h
render_if-IsLabelled true (some ns) s h = h
render_if-IsLabelled true none s h = (h.0, (rw h.0 refl, rw h.0 refl))

render-IsLabelled : (s : Pdf) → IsLabelled s → IsLabelled (render s)
unfolding render
render-IsLabelled s h = render_if-IsLabelled s.loaded s.rendering s h

finish-IsLabelled :
    (over client : ℕ) (r : Option (List ℕ)) (s : Pdf)
    → s.rendering ≡ r
    → IsLabelled s
    → IsLabelled (finish over client r s)
unfolding finish
finish-IsLabelled over client none s e h = h
finish-IsLabelled over client (some ns) s e h =
    let n : Names (some ns) s.drawn s.badge = subst (λ r. Names r s.drawn s.badge) e h.1.0 in
    if-IsLabelled (s.slideshow && s.fit_width) _ _ (h.0, (n, h.1.1)) (h.0, (n, h.1.1))

turn-IsLabelled : (p q : Bool) (s : Pdf) → IsLabelled s → IsLabelled (turn_if p q s)
unfolding turn_if schedule_slide
turn-IsLabelled true true s h = h
turn-IsLabelled true false s h = render-IsLabelled (to_page 1 s) h
turn-IsLabelled false q s h = render-IsLabelled (to_page (s.page + 1) s) h

timer-IsLabelled : (p q r : Bool) (s : Pdf) → IsLabelled s → IsLabelled (fire_if p q r s)
unfolding fire_if timer_if schedule_slide
timer-IsLabelled false q r s h = h
timer-IsLabelled true false r s h = h
timer-IsLabelled true true true s h = h
timer-IsLabelled true true false s h =
    turn-IsLabelled (leb s.pages s.page) s.has_on_end (record s { timer = false }) h

show_page-IsLabelled : (up : Bool) (n : ℕ) (s : Pdf) → IsLabelled s → IsLabelled (show_page up n s)
unfolding show_page schedule_slide
show_page-IsLabelled up n s h = render-IsLabelled (record s { page = n; to_bottom = up }) h

step_if-IsLabelled : (b : Bool) (dir : ℤ) (s : Pdf) → IsLabelled s → IsLabelled (step_if b dir s)
unfolding step_if schedule_slide
step_if-IsLabelled false dir s h = h
step_if-IsLabelled true dir s h = render-IsLabelled (to_page (next_page dir s.pages s.page) s) h

scroll_unless-IsLabelled :
    (p q : Bool) (dir : ℤ) (s : Pdf) → IsLabelled s → IsLabelled (scroll_unless p q dir s)
unfolding scroll_unless page_down page_up
scroll_unless-IsLabelled true q dir s h =
    if-IsLabelled (ltb s.page s.pages) _ _
      (if-IsLabelled (ltb s.pages (s.page + 1)) _ _ h (show_page-IsLabelled false (s.page + 1) s h))
      h
scroll_unless-IsLabelled false true dir s h =
    if-IsLabelled (ltb 1 s.page) _ _
      (if-IsLabelled (ltb (s.page - 1) 1) _ _ h (show_page-IsLabelled true (s.page - 1) s h)) h
scroll_unless-IsLabelled false false dir s h = h

scroll-IsLabelled :
    (b c : Bool) (dir : ℤ) (s : Pdf) → IsLabelled s → IsLabelled (scroll_if b c dir s)
unfolding scroll_if pdf_step scroll_page
scroll-IsLabelled false c dir s h = h
scroll-IsLabelled true false dir s h = step_if-IsLabelled (s.slideshow && s.loaded) dir s h
scroll-IsLabelled true true dir s h = scroll_unless-IsLabelled _ _ dir s h

-- Neither the arrival of a document nor a render that failed.
abbrev pub IsRegular : Event → Type 0
IsRegular (came n) = ⊥
IsRegular render_failed = ⊥
IsRegular _ = Unit

abbrev pub AreRegular : List Event → Type 0
AreRegular [] = Unit
AreRegular (e ∷ es) = IsRegular e × AreRegular es

step-IsLabelled : (e : Event) (s : Pdf) → IsRegular e → IsLabelled s → IsLabelled (step e s)
unfolding step on_timer pdf_scroll pdf_step
step-IsLabelled (came n) s r h = absurd r
step-IsLabelled render_failed s r h = absurd r
step-IsLabelled (rendered over client) s r h = finish-IsLabelled over client s.rendering s refl h
step-IsLabelled (timer_ran a f) s r h = timer-IsLabelled s.timer a f s h
step-IsLabelled (scrolled dir) s r h =
    scroll-IsLabelled (s.slideshow && s.loaded) s.fit_width dir s h
step-IsLabelled (stepped dir) s r h = step_if-IsLabelled (s.slideshow && s.loaded) dir s h
step-IsLabelled zoomed s r h = render-IsLabelled s h

run-IsLabelled : (es : List Event) (s : Pdf) → AreRegular es → IsLabelled s → IsLabelled (run es s)
unfolding run
run-IsLabelled [] s r h = h
run-IsLabelled (e ∷ es) s r h = run-IsLabelled es (step e s) r.1 (step-IsLabelled e s r.0 h)

loaded-IsLabelled :
    (i : ℤ) (w o : Bool) (n : ℕ) → is_positive i ≡ true → IsLabelled (load n (set_up i w o))
unfolding load set_up start_slides schedule_slide render render_if
loaded-IsLabelled i w o n p = rw p (refl, (refl, refl))

-- From the arrival of the document of a slideshow on, as long as no render fails, the text beside it names
-- the page that is being drawn while one is, and the page on the screen at all other times, of as many
-- pages as the document has.
pub opened-IsLabelled :
    (i : ℤ) (w o : Bool) (n : ℕ) (es : List Event)
    → is_positive i ≡ true
    → AreRegular es
    → IsLabelled (run es (load n (set_up i w o)))
opened-IsLabelled i w o n es p r =
    run-IsLabelled es (load n (set_up i w o)) r (loaded-IsLabelled i w o n p)

-- Where the next page of a slideshow cannot be drawn, the text names that page while the old one stays on
-- the screen.
pub failed_label :
    (s : Pdf)
    → IsLabelled s
    → s.loaded ≡ true
    → s.rendering ≡ none
    → s.timer ≡ true
    → s.page < s.pages
    → let t = run (timer_ran true false ∷ render_failed ∷ []) s in
      (t.drawn ≡ s.drawn) × ((t.badge ≡ some (s.page + 1, s.pages)) × (t.rendering ≡ none))
unfolding run step on_timer fire_if timer_if turn_if render render_if schedule_slide give_up
failed_label s h l r t b = ground arith
