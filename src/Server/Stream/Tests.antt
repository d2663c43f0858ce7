-- ===== src/Server/Stream/Tests.antt =====
-- A kiosk with two screens and a clock.
use Prim.Native.String.{String}
use familyplanner.Prelude.{
  ℕ, ◌≡◌, refl, true, false, none, some, Bool, List, [], ◌∷◌, if◌then◌else◌, ◌==◌, pos, negsuc,
  arith,
}
use familyplanner.Kiosk.Stage.{Stage}
use familyplanner.Kiosk.Stage.Listen.{Config, fallback_due}
use familyplanner.Server.Rotation.{
  Item, set_items, current, current_if, in_range, next as forth, place_of, go_if, go_to, set_paused,
  command, cmd_pause, cmd_next, cmd_goto, new_state,
}
use familyplanner.Server.Stream.{
  commanded, signalled, refreshed, advanced, chimed, Happening, served, happened, happen_all, greet,
  connect, happen, step, deliver, show, signal_if, jump, jump_if, is_shown,
}
use familyplanner.Server.Stream.Follow.{page_follows}
use familyplanner.Server.Stream.Edited.{edited_then_chimed}
use familyplanner.Server.Stream.Picked.{picked_stays}

abbrev text : ℕ → String
text n = if n == 11 then "11" else if n == 12 then "12" else "13"

abbrev on_end : ℕ → Bool
on_end n = n == 12

abbrev screens : List Item
screens = record { view = 11; dwell = pos 20 } ∷ record { view = 12; dwell = pos 30 } ∷ []

abbrev page : Stage
page = record {
  current = some "11";
  view_attr = some "11";
  override = none;
  names = [];
  label = "";
  transition_on = true;
  last_dwell = pos 30;
  boot_id = none;
  date_fmt = "long";
  doc = record { advance_on_end = some false; video = false; pdf = none; slid = false };
  focus = record { widgets = []; focus_idx = negsuc 0; frozen = none };
  pending = [];
  fallback = none;
}

abbrev plain : Config
plain = record { date_fmt = none; transition = none }

abbrev hour : List Happening
hour =
    served advanced
    ∷ served (refreshed screens [] plain)
    ∷ happened fallback_due
    ∷ served (chimed (some 13))
    ∷ served (commanded cmd_pause)
    ∷ served signalled
    ∷ []

page_follows_example :
    ((happen_all text on_end hour (connect text on_end screens plain [] "b1" page)).page.current
      ≡ some "13")
    × ((happen_all text on_end hour
          (connect text on_end screens plain [] "b1" page)).page.last_dwell
        ≡ pos 0)
unfolding happen_all happen step deliver greet connect show signal_if jump jump_if is_shown current
    current_if in_range forth place_of go_if go_to set_paused command new_state set_items
page_follows_example =
    page_follows text on_end screens plain [] "b1" page hour (record { view = 13; dwell = pos 0 })
      (tt, (refl, (tt, (tt, (tt, (tt, tt)))))) refl refl

abbrev edited : List Item
edited = record { view = 13; dwell = pos 20 } ∷ screens

edited_then_chimed_example :
    (happen_all text on_end
      (served (refreshed edited [] plain) ∷ served (chimed (some 13)) ∷ [])
      (connect text on_end screens plain [] "b1" page)).page.current
    ≡ (connect text on_end screens plain [] "b1" page).page.current
unfolding deliver greet connect show current current_if in_range new_state set_items
edited_then_chimed_example =
    edited_then_chimed text on_end edited [] plain (record { view = 13; dwell = pos 20 })
      (connect text on_end screens plain [] "b1" page) refl refl

abbrev night : List Happening
night =
    served advanced
    ∷ served (refreshed screens [] plain)
    ∷ happened fallback_due
    ∷ served (chimed (some 11))
    ∷ served signalled
    ∷ []

picked_stays_example :
    let j =
      happen_all text on_end
        (served advanced ∷ served (commanded cmd_next) ∷ [])
        (connect text on_end screens plain [] "b1" page) in
    let p = happen_all text on_end (served (commanded (cmd_goto 13)) ∷ served signalled ∷ []) j in
    ((happen_all text on_end night p).page.current ≡ some "13")
    × ((happen_all text on_end night p).page.last_dwell ≡ pos 0)
picked_stays_example =
    picked_stays text on_end screens plain [] "b1" page
      (served advanced ∷ served (commanded cmd_next) ∷ []) night 13 (tt, (tt, tt))
      (tt, (refl, (tt, (tt, (tt, tt))))) (tt, (tt, (tt, (tt, (tt, tt))))) (omega arith)
