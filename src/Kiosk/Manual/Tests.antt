-- ===== src/Kiosk/Manual/Tests.antt =====
-- A stage with a scrolling calendar, a photo album and a plain widget.
use familyplanner.Prelude.{
  zero, suc, true, false, none, some, [], ◌∷◌, arith, pos, negsuc, ◌≡◌, refl,
}
use familyplanner.Kiosk.State.{Widget}
use familyplanner.Kiosk.Manual.{Focus, next_idx, moved}
use familyplanner.Kiosk.Manual.Laws.{IsValid, OnlyMarked, OnlyHeld}

abbrev plain : Widget
plain = record { focused = false; cell = none; video = false; slides = false; pdf = none }

abbrev calendar : Widget
calendar = record plain {
  cell = some (record { frozen = false; top = 0; over = 300; client = 500 });
}

abbrev album : Widget
album = record plain { slides = true }

abbrev stage : Focus
stage = record { widgets = calendar ∷ album ∷ plain ∷ []; focus_idx = negsuc 0; frozen = none }

stage-marked : OnlyMarked (calendar ∷ album ∷ plain ∷ []) (negsuc 0)
stage-marked zero w e = ground arith
stage-marked (suc zero) w e = ground arith
stage-marked (suc (suc zero)) w e = ground arith
stage-marked (suc (suc (suc i))) w e = cc

stage-thawed : OnlyHeld (calendar ∷ album ∷ plain ∷ []) none
stage-thawed zero w c e f = ground arith
stage-thawed (suc zero) w c e f = ground arith
stage-thawed (suc (suc zero)) w c e f = ground arith
stage-thawed (suc (suc (suc i))) w c e f = cc

stage-IsValid : IsValid stage
stage-IsValid = record {
  above = omega arith;
  below = omega arith;
  marked = stage-marked;
  thawed = stage-thawed;
  held = λ k e. cc;
}

-- From the calendar to the left, round the end.
to_the_last : next_idx (negsuc 0) 3 (pos 0) ≡ pos 2
unfolding next_idx moved
to_the_last = refl
