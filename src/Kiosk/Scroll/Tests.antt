-- ===== src/Kiosk/Scroll/Tests.antt =====
-- Concrete frames of a cell that overflows by 100 pixels, in a view shown for 10 seconds.
use familyplanner.Prelude.{◌≡◌, refl, true, false, some, pos}
use familyplanner.Kiosk.Scroll.{Cell, cycle_ms, position}

abbrev tall : Cell
tall = record {
  attached = true;
  frozen = false;
  running = true;
  over = 100;
  start = some 5;
  top = 0;
}

ten_seconds : cycle_ms (pos 10) ≡ 10_000
unfolding cycle_ms
ten_seconds = refl

half_way : position 10_000 100 3_100 ≡ 19_000_000
unfolding position
half_way = refl
