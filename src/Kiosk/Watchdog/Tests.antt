-- ===== src/Kiosk/Watchdog/Tests.antt =====
-- Some minutes of a page that works, and of one that gets no beat.
use familyplanner.Prelude.{
  ℕ, ◌+◌, ◌-◌, ◌/◌, ◌≡◌, refl, true, false, none, some, List, [], ◌∷◌, arith, pos, negsuc,
}
use familyplanner.Kiosk.Stage.{Stage}
use familyplanner.Kiosk.Stage.Listen.{opened, navigate, refresh, names, dwell}
use familyplanner.Kiosk.Watchdog.{Watched, Event, checked, got, run}
use familyplanner.Kiosk.Watchdog.Steady.{steady_stream}
use familyplanner.Kiosk.Watchdog.Silent.{IsSilent, silent_stream}

abbrev served_page : Stage
served_page = record {
  current = some "1";
  view_attr = some "1";
  override = none;
  names = ("1", "Agenda") ∷ [];
  label = "Agenda";
  transition_on = true;
  last_dwell = pos 20;
  boot_id = some "a";
  date_fmt = "long";
  doc = record { advance_on_end = some false; video = false; pdf = none; slid = false };
  focus = record { widgets = []; focus_idx = negsuc 0; frozen = none };
  pending = [];
  fallback = none;
}

abbrev fresh_page : Watched
fresh_page = record { stage = served_page; last_beat = 0; reloads = 0; served = λ t. served_page }

abbrev minute : List (ℕ × Event)
minute =
    (100, got opened)
    ∷ (30000, got refresh)
    ∷ (30000, checked)
    ∷ (45000, got (navigate "1"))
    ∷ (195000, checked)
    ∷ []

steady_stream_example : (run minute fresh_page).reloads ≡ 0
steady_stream_example = steady_stream minute 0 fresh_page refl (ground arith)

-- The page is loaded anew at 180 seconds, and again at 360.
abbrev silence : List (ℕ × Event)
silence =
    (30000, checked)
    ∷ (60000, checked)
    ∷ (61000, got (names none))
    ∷ (90000, checked)
    ∷ (120000, checked)
    ∷ (149000, got (dwell (pos 20)))
    ∷ (150000, checked)
    ∷ (180000, checked)
    ∷ (210000, checked)
    ∷ (240000, checked)
    ∷ (270000, checked)
    ∷ (300000, checked)
    ∷ (301000, got (names none))
    ∷ (330000, checked)
    ∷ (360000, checked)
    ∷ []

silence-IsSilent : IsSilent 30000 12 silence
silence-IsSilent = ground arith

silent_stream_example :
    (run silence fresh_page).reloads ≡ 0 + (12 - (0 + 180000 - 30000) / 30000 + 5) / 6
silent_stream_example = silent_stream silence 30000 12 0 fresh_page refl silence-IsSilent

two_reloads : (run silence fresh_page).reloads ≡ 2
two_reloads = silent_stream_example
