-- ===== src/ClockFace/Tests.antt =====
-- The clock faces on a page and at a few times.
use familyplanner.Prelude.{refl, true, false, List, [], ◌∷◌}
use familyplanner.ClockFace.Loop.{Dial, Page, Event, swapped, animated, run}
use familyplanner.ClockFace.Loop.Laws.{IsValid, loop-IsValid}
use familyplanner.ClockFace.Panel.{sun_part}
use familyplanner.ClockFace.Panel.Texts.{Says, sun_part-Says}

abbrev dial : Dial
dial = record { element = 7; facts = "een feit" ∷ [] }

abbrev fresh : Page
fresh = record {
  set_up = [];
  clocks = [];
  animating = false;
  frames = 0;
  fact_counter = 0;
  told = [];
}

abbrev swaps : List Event
swaps =
    swapped (dial ∷ [])
    ∷ (animated (λ _. true) ∷ (animated (λ _. false) ∷ (swapped (dial ∷ []) ∷ [])))

loop-IsValid_example : IsValid (run swaps fresh)
loop-IsValid_example = loop-IsValid swaps fresh (record { one_frame = refl; running = λ _. refl })

-- At 7:30, with the sun rising at 8:00 and setting at 17:00.
sun_part-Says_example : Says 450 480 1020 (sun_part 450 480 1020)
sun_part-Says_example = sun_part-Says 450 480 1020
