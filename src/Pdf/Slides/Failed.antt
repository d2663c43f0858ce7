-- ===== src/Pdf/Slides/Failed.antt =====
-- A document that never comes.
use familyplanner.Prelude.{◌≡◌, refl, ap, ◌∙◌, Bool, &&-false, List, [], ◌∷◌, ℤ}
use familyplanner.Kiosk.State.{is_positive}
use familyplanner.Pdf.Slides.{
  set_up, render_if, render, finish, give_up, on_timer, fire_if, step_if, pdf_step, scroll_if,
  pdf_scroll, Event, came, rendered, render_failed, timer_ran, scrolled, stepped, zoomed, step, run,
}

abbrev pub NotCame : Event → Type 0
NotCame (came n) = ⊥
NotCame _ = Unit

-- None of the events is the arrival of the document.
abbrev pub IsLost : List Event → Type 0
IsLost [] = Unit
IsLost (e ∷ es) = NotCame e × IsLost es

pub lost_step :
    (e : Event) (interval : ℤ) (fit_width has_on_end : Bool)
    → NotCame e
    → step e (set_up interval fit_width has_on_end) ≡ set_up interval fit_width has_on_end
unfolding step set_up render render_if finish give_up on_timer fire_if pdf_step step_if pdf_scroll
    scroll_if
lost_step (came n) i w o h = absurd h
lost_step (rendered a b) i w o h = refl
lost_step render_failed i w o h = refl
lost_step (timer_ran a b) i w o h = refl
lost_step (scrolled d) i w o h = rw (&&-false (is_positive i)) refl
lost_step (stepped d) i w o h = rw (&&-false (is_positive i)) refl
lost_step zoomed i w o h = refl

-- Where the document cannot be loaded, nothing that happens afterwards has any effect: the widget sets no
-- timer, and it never calls `onEnd`.
pub lost_is_inert :
    (es : List Event) (interval : ℤ) (fit_width has_on_end : Bool)
    → IsLost es
    → run es (set_up interval fit_width has_on_end) ≡ set_up interval fit_width has_on_end
unfolding run
lost_is_inert [] i w o h = refl
lost_is_inert (e ∷ es) i w o h = ap (run es) (lost_step e i w o h.0) ∙ lost_is_inert es i w o h.1
