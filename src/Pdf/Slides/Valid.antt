-- ===== src/Pdf/Slides/Valid.antt =====
-- The page of a PDF widget stays a page of its document, and its position stays within the content.
use familyplanner.Prelude.{
  ℕ, ◌+◌, ◌-◌, ◌*◌, ◌≤◌, ◌≡◌, refl, min, Bool, true, false, ◌&&◌, Option, none, some, List,
  if◌then◌else◌, ltb, leb, ℤ, pos, negsuc, arith, Bool-cases, inl, inr,
}
use familyplanner.Pdf.Slides.{
  Pdf, render_if, render, schedule_slide, start_slides, load, finish, give_up, turn_if, timer_if,
  fire_if, on_timer, show_page, page_down, page_up, next_page, step_if, pdf_step, scroll_step,
  scroll_unless, scroll_page, scroll_if, pdf_scroll, Event, came, rendered, render_failed,
  timer_ran, scrolled, stepped, zoomed, step,
}

-- Before the document is there the page is the first of none; then it is one of the document's. The
-- position is within the content.
pub record Fits (loaded : Bool) (page pages top over : ℕ) : Type 0 where
  pub from_one : 1 ≤ page
  pub unloaded : loaded ≡ false → page ≡ 1
  pub in_document : loaded ≡ true → page ≤ pages
  pub no_pages : loaded ≡ false → pages ≡ 0
  pub within : top ≤ 2 * over

abbrev pub IsValid : Pdf → Type 0
IsValid s = Fits s.loaded s.page s.pages s.top s.over

-- Another position, in another content.
at_position :
    (loaded : Bool) (page pages top over top' over' : ℕ)
    → Fits loaded page pages top over
    → top' ≤ 2 * over'
    → Fits loaded page pages top' over'
at_position loaded page pages top over top' over' v h = record {
  from_one = v.from_one;
  unloaded = v.unloaded;
  in_document = v.in_document;
  no_pages = v.no_pages;
  within = h;
}

-- What renders and timers leave alone.
render_if-IsValid :
    (b : Bool) (r : Option (List ℕ)) (s : Pdf) → IsValid s → IsValid (render_if b r s)
unfolding render_if
render_if-IsValid false r s v = v
render_if-IsValid true (some ns) s v = v
render_if-IsValid true none s v = v

render-IsValid : (s : Pdf) → IsValid s → IsValid (render s)
unfolding render
render-IsValid s v = render_if-IsValid s.loaded s.rendering s v

schedule-IsValid : (s : Pdf) → IsValid s → IsValid (schedule_slide s)
unfolding schedule_slide
schedule-IsValid s v = v

-- Another page, the first one of a document that is not there yet.
moved-IsValid :
    (up : Bool) (n : ℕ) (s : Pdf)
    → IsValid s
    → 1 ≤ n
    → (s.loaded ≡ false → n ≡ 1)
    → (s.loaded ≡ true → n ≤ s.pages)
    → IsValid (schedule_slide (render (record s { page = n; to_bottom = up })))
moved-IsValid up n s v a b c = schedule-IsValid (render (record s { page = n; to_bottom = up })) (
    render-IsValid (record s { page = n; to_bottom = up })
      (record {
        from_one = a;
        unloaded = b;
        in_document = c;
        no_pages = v.no_pages;
        within = v.within;
      }))

-- A page of the document.
paged-IsValid :
    (up : Bool) (n : ℕ) (s : Pdf)
    → IsValid s
    → 1 ≤ n
    → n ≤ s.pages
    → IsValid (schedule_slide (render (record s { page = n; to_bottom = up })))
paged-IsValid up n s v a b =
    moved-IsValid up n s v a (λ u. let z = v.no_pages u in absurd (omega arith)) (λ _. b)

start_slides-IsValid : (b : Bool) (s : Pdf) → IsValid s → IsValid (start_slides b s)
unfolding start_slides
start_slides-IsValid true s v = schedule-IsValid s v
start_slides-IsValid false s v = v

pub load-IsValid : (n : ℕ) (s : Pdf) → 1 ≤ n → s.loaded ≡ false → IsValid s → IsValid (load n s)
unfolding load
load-IsValid n s a l v =
    let t = record s { loaded = true; pages = n } in
    start_slides-IsValid s.slideshow (render t) (
      render-IsValid t (record {
        from_one = v.from_one;
        unloaded = λ u. absurd (cc u);
        in_document = λ _. rw (v.unloaded l) a;
        no_pages = λ u. absurd (cc u);
        within = v.within;
      }))

finish_if-IsValid :
    (b up : Bool) (over client : ℕ) (ns : List ℕ) (s : Pdf)
    → IsValid s
    → let t = record s { drawn = ns; rendering = none; over = over; client = client } in
      IsValid (
        if b
        then record t { top = if up then 2 * over else 0; to_bottom = false }
        else record t { top = min s.top (2 * over) })
finish_if-IsValid true true over client ns s v = at_position _ _ _ _ _ _ _ v (omega arith)
finish_if-IsValid true false over client ns s v = at_position _ _ _ _ _ _ _ v (omega arith)
finish_if-IsValid false up over client ns s v = at_position _ _ _ _ _ _ _ v (omega arith)

finish-IsValid :
    (over client : ℕ) (r : Option (List ℕ)) (s : Pdf) → IsValid s → IsValid (finish over client r s)
unfolding finish
finish-IsValid over client none s v = v
finish-IsValid over client (some ns) s v =
    finish_if-IsValid (s.slideshow && s.fit_width) s.to_bottom over client ns s v

turn_if-IsValid :
    (b end : Bool) (s : Pdf) → leb s.pages s.page ≡ b → IsValid s → IsValid (turn_if b end s)
unfolding turn_if
turn_if-IsValid true true s e v = v
turn_if-IsValid true false s e v =
    moved-IsValid s.to_bottom 1 s v (omega arith) (λ _. refl)
      (λ l. let a = v.in_document l in let b = v.from_one in omega arith)
turn_if-IsValid false end s e v =
    paged-IsValid s.to_bottom (s.page + 1) s v (omega arith) (ground arith)

timer_if-IsValid : (b f : Bool) (s : Pdf) → IsValid s → IsValid (timer_if b f s)
unfolding timer_if
timer_if-IsValid false f s v = v
timer_if-IsValid true true s v = schedule-IsValid s v
timer_if-IsValid true false s v = turn_if-IsValid (leb s.pages s.page) s.has_on_end s refl v

fire_if-IsValid : (b a f : Bool) (s : Pdf) → IsValid s → IsValid (fire_if b a f s)
unfolding fire_if
fire_if-IsValid false a f s v = v
fire_if-IsValid true a f s v = timer_if-IsValid a f (record s { timer = false }) (v)

if-IsValid : (b : Bool) (s t : Pdf) → IsValid s → IsValid t → IsValid (if b then s else t)
if-IsValid true s t v w = v
if-IsValid false s t v w = w

page_down-IsValid : (s : Pdf) → IsValid s → IsValid (page_down s)
unfolding page_down show_page
page_down-IsValid s v = elim (Bool-cases (ltb s.pages (s.page + 1))) [
  | inl e ↦ rw e v
  | inr e ↦ rw e (paged-IsValid false (s.page + 1) s v (omega arith) (ground arith))
]

page_up-IsValid : (s : Pdf) → IsValid s → IsValid (page_up s)
unfolding page_up show_page
page_up-IsValid s v = elim (Bool-cases (ltb (s.page - 1) 1)) [
  | inl e ↦ rw e v
  | inr e ↦ rw e (
      moved-IsValid true (s.page - 1) s v (ground arith)
        (λ u. let z = v.unloaded u in absurd (ground arith))
        (λ l. let z = v.in_document l in omega arith))
]

scroll_unless-IsValid :
    (a b : Bool) (dir : ℤ) (s : Pdf) → IsValid s → IsValid (scroll_unless a b dir s)
unfolding scroll_unless scroll_step
scroll_unless-IsValid true b dir s v =
    if-IsValid (ltb s.page s.pages) (page_down s) s (page_down-IsValid s v) v
scroll_unless-IsValid false true dir s v =
    if-IsValid (ltb 1 s.page) (page_up s) s (page_up-IsValid s v) v
scroll_unless-IsValid false false dir s v = at_position _ _ _ _ _ _ _ v (omega arith)

pub next_page-bounds :
    (dir : ℤ) (n k : ℕ) → 1 ≤ k → k ≤ n → (1 ≤ next_page dir n k) × (next_page dir n k ≤ n)
unfolding next_page
next_page-bounds (pos d) n k a b = (ground arith, ground arith)
next_page-bounds (negsuc d) n k a b = (ground arith, ground arith)

pdf_step-IsValid : (dir : ℤ) (s : Pdf) → IsValid s → IsValid (pdf_step dir s)
unfolding pdf_step step_if
pdf_step-IsValid dir s v = elim (Bool-cases (s.slideshow && s.loaded)) [
  | inl e ↦ rw e (
      let l : s.loaded ≡ true = ground arith in
      let b = next_page-bounds dir s.pages s.page v.from_one (v.in_document l) in
      paged-IsValid s.to_bottom (next_page dir s.pages s.page) s v b.0 b.1)
  | inr e ↦ rw e v
]

scroll_if-IsValid : (a b : Bool) (dir : ℤ) (s : Pdf) → IsValid s → IsValid (scroll_if a b dir s)
unfolding scroll_if scroll_page
scroll_if-IsValid false b dir s v = v
scroll_if-IsValid true false dir s v = pdf_step-IsValid dir s v
scroll_if-IsValid true true dir s v = scroll_unless-IsValid _ _ dir s v

-- Not another document: `came` stands for the one answer of `getDocument`.
abbrev pub IsCame : Event → Type 0
IsCame (came n) = Unit
IsCame _ = ⊥

pub step-IsValid : (e : Event) (s : Pdf) → ¬ IsCame e → IsValid s → IsValid (step e s)
unfolding step on_timer pdf_scroll give_up
step-IsValid (came n) s h v = absurd (h tt)
step-IsValid (rendered over client) s h v = finish-IsValid over client s.rendering s v
step-IsValid render_failed s h v = v
step-IsValid (timer_ran a f) s h v = fire_if-IsValid s.timer a f s v
step-IsValid (scrolled dir) s h v = scroll_if-IsValid (s.slideshow && s.loaded) s.fit_width dir s v
step-IsValid (stepped dir) s h v = pdf_step-IsValid dir s v
step-IsValid zoomed s h v = render-IsValid s v
