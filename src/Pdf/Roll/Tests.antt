-- ===== src/Pdf/Roll/Tests.antt =====
-- A page that overflows by 100 pixels, with an interval of five seconds.
use familyplanner.Prelude.{◌+◌, ◌-◌, ◌*◌, ◌≡◌, refl, arith, true, false, none, [], ◌∷◌, ◌++◌}
use familyplanner.Pdf.Roll.{
  period, slide_ms, begin_if, drawn, schedule_slide, Slide, turned, finished, step, run,
}
use familyplanner.Pdf.Roll.Pace.{framings, cut_off}

abbrev page : Slide
page = record {
  roll = record { interval = 5; begun = none; top = 80; requested = false };
  due = none;
}

-- Drawing took 300 milliseconds; a frame is shown half a second before the timer runs.
cut_off_example :
    (run
        (turned 2700 ∷ finished true true ∷ framings 100 (3000 ∷ ((4000 ∷ []) ++ (7200 ∷ []))))
        page).roll.top
      + 100 * ((3000 - 2700) + (7700 - 7200))
    ≡ 100 * period 5
cut_off_example =
    cut_off 2700 3000 7200 100 7700 (4000 ∷ []) page (omega arith) (omega arith) (omega arith)
      (unfold run step schedule_slide drawn begin_if slide_ms in refl) (omega arith)
