-- ===== src/Preview/Tests.antt =====
-- The preview, with a cell whose content overflows by 30 pixels.
use familyplanner.Prelude.{◌+◌, ◌*◌, ◌≡◌, refl, true, false}
use familyplanner.Preview.{Cell, set_up}
use familyplanner.Preview.Round.{ticks, preview_round}

abbrev opened : Cell
opened = record { top = 0; down = true; pause = 24 }

preview_round_example :
    (ticks (24 + 30) 30 opened ≡ record { top = 30; down = false; pause = 24 })
    × (ticks (2 * (24 + 30)) 30 opened ≡ opened)
preview_round_example = preview_round 30 opened (unfold set_up in refl)
