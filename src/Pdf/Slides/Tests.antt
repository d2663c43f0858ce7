-- ===== src/Pdf/Slides/Tests.antt =====
-- A slideshow of three pages that fill the width.
use familyplanner.Prelude.{ℕ, ◌≡◌, refl, true, false, none, some, List, [], ◌∷◌, arith, pos, negsuc}
use familyplanner.Pdf.Slides.{
  Pdf, set_up, load, Event, rendered, render_failed, timer_ran, scrolled, stepped, zoomed, step,
  run,
}
use familyplanner.Pdf.Slides.Valid.{IsValid}
use familyplanner.Pdf.Slides.Play.{opened-IsValid, IsShowing, intervals, plays_through}
use familyplanner.Pdf.Slides.Badge.{IsLabelled, opened-IsLabelled}

abbrev first : Pdf
first = record {
  slideshow = true;
  fit_width = true;
  has_on_end = true;
  loaded = true;
  pages = 3;
  page = 1;
  rendering = none;
  timer = true;
  to_bottom = false;
  drawn = 1 ∷ [];
  top = 0;
  over = 200;
  client = 600;
  ended = 0;
  badge = some (1, 3);
}

abbrev day : List Event
day =
    rendered 200 600
    ∷ timer_ran true false
    ∷ zoomed
    ∷ stepped (pos 1)
    ∷ rendered 300 600
    ∷ scrolled (negsuc 0)
    ∷ render_failed
    ∷ []

no : ¬ ⊥
no b = b

opened-IsValid_example : IsValid (run day (load 3 (set_up (pos 5) true true)))
opened-IsValid_example =
    opened-IsValid (pos 5) true true 3 day (omega arith)
      (no, (no, (no, (no, (no, (no, (no, tt)))))))

first-IsShowing : IsShowing 3 1 0 true first
first-IsShowing = record {
  slides = refl;
  loaded = refl;
  counted = refl;
  page = refl;
  drawn = refl;
  timer = refl;
  settled = refl;
  calls = refl;
  signals = refl;
}

abbrev sizes : List (ℕ × ℕ)
sizes = (200, 600) ∷ (0, 600) ∷ []

plays_through_example :
    IsShowing 3 3 0 true (intervals sizes first)
    × (((step (timer_ran true false) (intervals sizes first)).ended ≡ 1)
        × (((step (timer_ran true false) (intervals sizes first)).page ≡ 3)
            × ((step (timer_ran true false) (intervals sizes first)).timer ≡ false)))
plays_through_example = plays_through sizes 3 1 0 true first first-IsShowing (omega arith)

abbrev turned : List Event
turned = rendered 0 600 ∷ timer_ran true false ∷ stepped (negsuc 0) ∷ rendered 0 600 ∷ zoomed ∷ []

opened-IsLabelled_example : IsLabelled (run turned (load 3 (set_up (pos 5) true true)))
opened-IsLabelled_example =
    opened-IsLabelled (pos 5) true true 3 turned refl (tt, (tt, (tt, (tt, (tt, tt)))))
