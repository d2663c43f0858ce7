-- ===== src/Pdf/Roll.antt =====
-- The automatic scrolling of a slideshow's page that fills the width, pdf-widget.js: `autoScroll` with its
-- animation frame, beside the timer of `scheduleSlide`. Times are in milliseconds; `scrollTop` is counted in
-- parts of a pixel, `period` of them.
mod Pace
mod Tests
use familyplanner.Prelude.{
  ℕ, zero, suc, ◌+◌, ◌-◌, ◌*◌, min, max, Bool, true, false, ◌&&◌, Option, none, some, List, [], ◌∷◌,
  if◌then◌else◌, ltb,
}

-- The time that the scrolling of a page takes, `dur`.
pub period : ℕ → ℕ
period interval = max 2 interval * 1000

pub record Roll : Type 0 where
  pub interval : ℕ
  pub begun : Option ℕ  -- `startT`
  pub top : ℕ
  pub requested : Bool  -- `scrollRAF`

-- `autoScroll(el)`, where the widget is a slideshow (`slideshow`) that fills the width (`fit_width`)
pub auto_scroll : Bool → Bool → Roll → Roll
auto_scroll slideshow fit_width r =
    if slideshow && fit_width then record r { begun = none; requested = true } else r

pub begin : Option ℕ → ℕ → ℕ
begin none t = t
begin (some s) t = s

-- A frame at the time `t`, with content that overflows by `over`.
pub roll_to : ℕ → ℕ → Roll → Roll
roll_to over t r =
    let s = begin r.begun t in
    record r { begun = some s; top = over * min (period r.interval) (t - s) }

pub roll_if : Bool → ℕ → ℕ → Roll → Roll
roll_if true over t r = roll_to over t r
roll_if false over t r = r

pub frame_if : Bool → Bool → ℕ → ℕ → Roll → Roll
frame_if false focused over t r = record r { requested = false }
frame_if true true over t r = record r { begun = none; requested = true }
frame_if true false over t r = record (roll_if (ltb 4 over) over t r) { requested = true }

pub frame_unless : Bool → Bool → Bool → ℕ → ℕ → Roll → Roll
frame_unless false attached focused over t r = r
frame_unless true attached focused over t r = frame_if attached focused over t r

-- `frame(t)`, where it was requested
pub frame : Bool → Bool → ℕ → ℕ → Roll → Roll
frame attached focused over t r = frame_unless r.requested attached focused over t r

-- The time to which `scheduleSlide` sets its timer.
pub slide_ms : ℕ → ℕ
slide_ms interval = max 2 interval * 1000

-- A page from the beginning of its drawing on, and the time at which the slide's timer is due.
pub record Slide : Type 0 where
  pub roll : Roll
  pub due : Option ℕ

-- `scheduleSlide(el)`, at the time `now`
pub schedule_slide : ℕ → Slide → Slide
schedule_slide now x = record x { due = some (now + slide_ms x.roll.interval) }

pub begin_if : Bool → Slide → Slide
begin_if true x = record x { roll = auto_scroll true true (record x.roll { top = 0 }) }
begin_if false x = x

-- The end of `render`, for a page that is not to begin at its bottom.
pub drawn : Bool → Bool → Slide → Slide
drawn slideshow fit_width x = begin_if (slideshow && fit_width) x

-- `render(el); scheduleSlide(el)`, where the drawing only begins; its end; and a frame.
pub data Event : Type 0 where
  turned : ℕ → Event
  finished : Bool → Bool → Event
  framed : (attached focused : Bool) (over t : ℕ) → Event

pub step : Event → Slide → Slide
step (turned now) x = schedule_slide now x
step (finished slideshow fit_width) x = drawn slideshow fit_width x
step (framed attached focused over t) x = record x { roll = frame attached focused over t x.roll }

pub run : List Event → Slide → Slide
run [] x = x
run (e ∷ es) x = run es (step e x)
