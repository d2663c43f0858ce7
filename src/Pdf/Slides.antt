-- ===== src/Pdf/Slides.antt =====
-- One PDF widget of pdf-widget.js: its page, its timer and the render in progress. Loading and rendering
-- are steps of their own, since their promises are settled later.
mod Valid
mod Play
mod Lost
mod Badge
pub mod Failed
mod Chain
mod Walk
mod Tests
use familyplanner.Prelude.{
  ℕ, zero, suc, ◌+◌, ◌-◌, ◌*◌, min, max, Bool, true, false, not, ◌&&◌, ◌||◌, Option, none, some,
  List, [], ◌∷◌, if◌then◌else◌, ltb, leb, ℤ, pos, negsuc,
}
use familyplanner.Kiosk.State.{is_positive, is_negative}

-- `st`, with what the widget's element shows. Its scroll position is in halves of a pixel.
pub record Pdf : Type 0 where
  pub slideshow : Bool
  pub fit_width : Bool
  pub has_on_end : Bool  -- `onEnd` is there
  pub loaded : Bool  -- `doc` is there
  pub pages : ℕ
  pub page : ℕ
  pub rendering : Option (List ℕ)  -- the pages that the render in progress draws
  pub timer : Bool
  pub to_bottom : Bool  -- `__toBottom`
  pub drawn : List ℕ  -- the pages on the screen
  pub top : ℕ  -- `scrollTop`, in halves
  pub over : ℕ  -- `scrollHeight - clientHeight`
  pub client : ℕ  -- `clientHeight`
  pub ended : ℕ  -- the calls of `onEnd`
  pub badge : Option (ℕ × ℕ)  -- `pageno`, once it is there: the numbers of its text

-- `setupPdf`, before the document is there
pub set_up : ℤ → Bool → Bool → Pdf
set_up interval fit_width has_on_end = record {
  slideshow = is_positive interval;
  fit_width = fit_width;
  has_on_end = has_on_end;
  loaded = false;
  pages = 0;
  page = 1;
  rendering = none;
  timer = false;
  to_bottom = false;
  drawn = [];
  top = 0;
  over = 0;
  client = 0;
  ended = 0;
  badge = none;
}

-- `a`, `a + 1`, …, `n` of them
pub range_from : ℕ → ℕ → List ℕ
range_from zero a = []
range_from (suc n) a = a ∷ range_from n (a + 1)

abbrev pub page_nums : Pdf → List ℕ
page_nums s = if s.slideshow then s.page ∷ [] else range_from s.pages 1

-- `updatePageNo`, which `render` calls for a slideshow
abbrev pub page_label : Pdf → Option (ℕ × ℕ)
page_label s = if s.slideshow then some (s.page, s.pages) else s.badge

pub render_if : Bool → Option (List ℕ) → Pdf → Pdf
render_if false r s = s
render_if true (some ns) s = s
render_if true none s = record s { rendering = some (page_nums s); badge = page_label s }

-- `render(el)`, up to the promises
pub render : Pdf → Pdf
render s = render_if s.loaded s.rendering s

-- `scheduleSlide(el)`
pub schedule_slide : Pdf → Pdf
schedule_slide s = record s { timer = true }

pub start_slides : Bool → Pdf → Pdf
start_slides true s = schedule_slide s
start_slides false s = s

-- The document came, with `n` pages.
pub load : ℕ → Pdf → Pdf
load n s = start_slides s.slideshow (render (record s { loaded = true; pages = n }))

-- The render in progress is finished, and the element's content now overflows by `over`. Where the
-- script does not set the position, the browser keeps it within the content.
pub finish : ℕ → ℕ → Option (List ℕ) → Pdf → Pdf
finish over client none s = s
finish over client (some ns) s =
    let t = record s { drawn = ns; rendering = none; over = over; client = client } in
    if s.slideshow && s.fit_width
    then record t { top = if s.to_bottom then 2 * over else 0; to_bottom = false }
    else record t { top = min s.top (2 * over) }

-- A render that failed.
pub give_up : Pdf → Pdf
give_up s = record s { rendering = none }

abbrev pub to_page : ℕ → Pdf → Pdf
to_page n s = record s { page = n }

-- What the timer does: past the last page it ends or goes round, and else it turns the page.
pub turn_if : Bool → Bool → Pdf → Pdf
turn_if true true s = record s { ended = s.ended + 1 }
turn_if true false s = schedule_slide (render (to_page 1 s))
turn_if false b s = schedule_slide (render (to_page (s.page + 1) s))

pub timer_if : Bool → Bool → Pdf → Pdf
timer_if false focused s = s
timer_if true true s = schedule_slide s
timer_if true false s = turn_if (leb s.pages s.page) s.has_on_end s

pub fire_if : Bool → Bool → Bool → Pdf → Pdf
fire_if false attached focused s = s
fire_if true attached focused s = timer_if attached focused (record s { timer = false })

-- The timer runs, where the element is in the document (`attached`) and its widget has the focus.
pub on_timer : Bool → Bool → Pdf → Pdf
on_timer attached focused s = fire_if s.timer attached focused s

pub show_page : Bool → ℕ → Pdf → Pdf
show_page up n s = schedule_slide (render (record s { page = n; to_bottom = up }))

-- `stepPage(el, dir)`, for a `dir` of 1 and of -1
pub page_down : Pdf → Pdf
page_down s = if ltb s.pages (s.page + 1) then s else show_page false (s.page + 1) s

pub page_up : Pdf → Pdf
page_up s = if ltb (s.page - 1) 1 then s else show_page true (s.page - 1) s

pub next_page : ℤ → ℕ → ℕ → ℕ
next_page dir n k =
    if is_negative dir then (if leb k 1 then n else k - 1) else (if leb n k then 1 else k + 1)

pub step_if : Bool → ℤ → Pdf → Pdf
step_if false dir s = s
step_if true dir s = schedule_slide (render (to_page (next_page dir s.pages s.page) s))

-- `fpPdfStep(el, dir)`
pub pdf_step : ℤ → Pdf → Pdf
pdf_step dir s = step_if (s.slideshow && s.loaded) dir s

pub scroll_step : ℤ → Pdf → ℕ
scroll_step dir s =
    let step = max 80 s.client in
    min (2 * s.over) (if is_positive dir then s.top + step else s.top - step)

pub scroll_unless : Bool → Bool → ℤ → Pdf → Pdf
scroll_unless true at_top dir s = if ltb s.page s.pages then page_down s else s
scroll_unless false true dir s = if ltb 1 s.page then page_up s else s
scroll_unless false false dir s = record s { top = scroll_step dir s }

-- `fpPdfScroll` of a page that fills the width, for a `dir` of 1 or -1
pub scroll_page : ℤ → Pdf → Pdf
scroll_page dir s =
    scroll_unless (is_positive dir && (leb s.over 4 || leb (2 * s.over - 4) s.top))
      (is_negative dir && (leb s.over 4 || leb s.top 4)) dir s

pub scroll_if : Bool → Bool → ℤ → Pdf → Pdf
scroll_if false b dir s = s
scroll_if true false dir s = pdf_step dir s
scroll_if true true dir s = scroll_page dir s

-- `fpPdfScroll(el, dir)`
pub pdf_scroll : ℤ → Pdf → Pdf
pdf_scroll dir s = scroll_if (s.slideshow && s.loaded) s.fit_width dir s

pub data Event : Type 0 where
  came : ℕ → Event
  rendered : ℕ → ℕ → Event
  render_failed : Event
  timer_ran : Bool → Bool → Event
  scrolled : ℤ → Event
  stepped : ℤ → Event
  zoomed : Event

-- A zoom changes the scale, which is not in the state, and renders.
pub step : Event → Pdf → Pdf
step (came n) s = load n s
step (rendered over client) s = finish over client s.rendering s
step render_failed s = give_up s
step (timer_ran attached focused) s = on_timer attached focused s
step (scrolled dir) s = pdf_scroll dir s
step (stepped dir) s = pdf_step dir s
step zoomed s = render s

pub run : List Event → Pdf → Pdf
run [] s = s
run (e ∷ es) s = run es (step e s)
