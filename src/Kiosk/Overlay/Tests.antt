-- ===== src/Kiosk/Overlay/Tests.antt =====
-- Key presses on a kiosk with two screens.
use Prim.Native.String.{String}
use familyplanner.Prelude.{refl, true, List, [], ◌∷◌, arith, pos}
use familyplanner.Kiosk.Overlay.{closed, Overlay}
use familyplanner.Kiosk.Overlay.Laws.{IsValid}

abbrev names : List (String × String)
names = ("1", "Demo") ∷ ("2", "") ∷ []

abbrev idle : Overlay
idle = record {
  panel = closed;
  sel = pos 0;
  ids = [];
  items = [];
  info_hidden = true;
  screens_hidden = true;
}

idle-IsValid : IsValid idle
idle-IsValid = record {
  info_shown = refl;
  screens_shown = refl;
  above = omega arith;
  below = λ h. absurd (omega arith);
}
