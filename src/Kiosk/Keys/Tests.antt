-- ===== src/Kiosk/Keys/Tests.antt =====
-- The keys on a stage with one scrolling calendar.
use familyplanner.Prelude.{
  ◌≡◌, refl, zero, suc, true, false, none, some, List, [], ◌∷◌, arith, pos, negsuc,
}
use familyplanner.Kiosk.State.{Widget}
use familyplanner.Kiosk.Overlay.{Overlay, closed, screens}
use familyplanner.Kiosk.Manual.{Hooks}
use familyplanner.Kiosk.Manual.Laws as ManualLaws
use familyplanner.Kiosk.Stage.{Stage}
use familyplanner.Kiosk.Keys.Laws.{IsValid, type-IsValid}
use familyplanner.Kiosk.Keys.Pausing.{picker_holds}
use familyplanner.Kiosk.Keys.{
  Code, letter_i, letter_o, arrow_right, arrow_up, arrow_down, escape, return, Press, Keyboard,
  press, type,
}

abbrev plain : Code → Press
plain c = record { code = c; ctrl = false; shift = false }

abbrev calendar : Widget
calendar = record {
  focused = false;
  cell = some (record { frozen = false; top = 0; over = 300; client = 500 });
  video = false;
  slides = false;
  pdf = none;
}

abbrev all : Hooks
all = record { toggles_video = true; scrolls_pdf = true; steps_pdf = true; zooms_pdf = true }

abbrev idle : Overlay
idle = record {
  panel = closed;
  sel = pos 0;
  ids = [];
  items = [];
  info_hidden = true;
  screens_hidden = true;
}

abbrev picking : Overlay
picking = record idle { panel = screens; screens_hidden = false }

abbrev stage : Stage
stage = record {
  current = some "1";
  view_attr = some "1";
  override = none;
  names = ("1", "Agenda") ∷ ("2", "Foto") ∷ [];
  label = "Agenda";
  transition_on = true;
  last_dwell = pos 20;
  boot_id = none;
  date_fmt = "long";
  doc = record { advance_on_end = some false; video = false; pdf = none; slid = false };
  focus = record { widgets = calendar ∷ []; focus_idx = negsuc 0; frozen = none };
  pending = [];
  fallback = none;
}

abbrev kiosk : Keyboard
kiosk = record { overlay = idle; stage = stage; paused = false }

abbrev picker : Keyboard
picker = record kiosk { overlay = picking }

stage-marked : ManualLaws.OnlyMarked (calendar ∷ []) (negsuc 0)
stage-marked zero w e = ground arith
stage-marked (suc i) w e = cc

stage-thawed : ManualLaws.OnlyHeld (calendar ∷ []) none
stage-thawed zero w c e f = ground arith
stage-thawed (suc i) w c e f = cc

kiosk-IsValid : IsValid kiosk
kiosk-IsValid = record {
  overlay_ok = record {
    info_shown = refl;
    screens_shown = refl;
    above = omega arith;
    below = λ h. absurd (omega arith);
  };
  focus_ok = record {
    above = omega arith;
    below = omega arith;
    marked = stage-marked;
    thawed = stage-thawed;
    held = λ k e. cc;
  };
}

abbrev keys : List Press
keys =
    record { code = arrow_down; ctrl = true; shift = false }
    ∷ plain arrow_up
    ∷ plain letter_i
    ∷ plain letter_o
    ∷ plain return
    ∷ plain escape
    ∷ []

type-IsValid_example : IsValid (type all true keys kiosk).0
type-IsValid_example = type-IsValid all true keys kiosk kiosk-IsValid

picker_holds_example :
    ((press all true (plain arrow_right) picker).effects ≡ [])
    × (((press all true (plain arrow_right) picker).prevented ≡ true)
        × (((press all true (plain arrow_right) picker).state.paused ≡ false)
            × ((press all true (plain arrow_right) picker).state.stage.focus ≡ stage.focus)))
picker_holds_example = picker_holds all true (plain arrow_right) picker refl
