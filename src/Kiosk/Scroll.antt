-- ===== src/Kiosk/Scroll.antt =====
-- The automatic scroll of overflowing cells in kiosk.js: `setupCellScroll` and its animation frame.
-- Times are whole milliseconds. A position is kept as a numerator over `38 * cycle`, in which the
-- script's fractions of the cycle (0.12, 0.38, 0.5, 0.62) are exact.
mod Laws
mod Tests
use familyplanner.Prelude.{
  ℕ, ◌+◌, ◌-◌, ◌*◌, ◌%◌, Bool, true, false, Option, none, some, ltb, leb, if◌then◌else◌, ℤ, pos,
  ltb_ℤ, pos_part,
}

-- A `.cell-scroll` element, with the script's fields on it.
pub record Cell : Type 0 where
  pub attached : Bool  -- `document.body.contains(el)`
  pub frozen : Bool  -- `__fpFrozen`
  pub running : Bool  -- `__fpScrollRAF` holds a requested frame
  pub over : ℕ  -- `scrollHeight - clientHeight`
  pub start : Option ℕ  -- the closure's `start`
  pub top : ℕ  -- `scrollTop`, over `38 * cycle`

-- `cycleMs`
pub cycle_ms : ℤ → ℕ
cycle_ms dwell_secs = pos_part (if ltb_ℤ (pos 0) dwell_secs then dwell_secs else pos 30) * 1000

-- `pos`, at `e` milliseconds into a cycle.
pub position : ℕ → ℕ → ℕ → ℕ
position cycle over e =
    if ltb (100 * e) (12 * cycle)
    then 0
    else if ltb (100 * e) (50 * cycle)
    then over * (100 * e - 12 * cycle)
    else if ltb (100 * e) (62 * cycle)
    then over * (38 * cycle)
    else over * (38 * cycle - (100 * e - 62 * cycle))

-- `start === null ? t : start`
abbrev pub started : Option ℕ → ℕ → ℕ
started none t = t
started (some s) t = s

-- One animation frame at time `t`.
pub frame : ℕ → ℕ → Cell → Cell
frame cycle t c =
    if c.attached
    then if c.frozen then record c { start = none; running = true } else record c {
      start = some (started c.start t);
      top = if leb 4 c.over then position cycle c.over ((t - started c.start t) % cycle) else c.top;
      running = true;
    }
    else record c { running = false }

-- `setupCellScroll` at one cell: a new closure, unless the cell is frozen.
pub setup_cell_scroll : Cell → Cell
setup_cell_scroll c =
    if c.frozen then c else record c { top = 0; start = none; running = leb 4 c.over }
