-- ===== src/Preview.antt =====
-- The preview of the kiosk, internal/web/assets/kiosk-preview.js: its scrolling cells and its countdowns.
mod Round
mod Same
mod Tests
use familyplanner.Prelude.{
  ℕ, zero, suc, ◌+◌, ◌-◌, ◌/◌, ◌%◌, min, Bool, true, false, Option, none, some, List, [], ◌∷◌, ◌++◌,
  if◌then◌else◌, ltb, leb, ℤ, pos, ◌-ℤ◌, ltb_ℤ, pos_part,
}
use familyplanner.Kiosk.Countdown.{Text}
use familyplanner.Kiosk.Countdown.Tick.{Live, parse_int}
use familyplanner.Kiosk.Countdown.Digits.{decimal}

-- A scrolling cell: `scrollTop`, and the interval's variables; `down` stands for a `dir` of 1.
pub record Cell : Type 0 where
  pub top : ℕ
  pub down : Bool
  pub pause : ℕ

-- `el.scrollTop += dir`, which the browser keeps within the content.
pub moved_top : ℕ → Cell → ℕ
moved_top over c = min over (if c.down then c.top + 1 else c.top - 1)

pub turn : ℕ → ℕ → Cell → Cell
turn over top c =
    if leb over top
    then record { top = over; down = false; pause = 24 }
    else if leb top 0
    then record { top = 0; down = true; pause = 24 }
    else record c { top = top }

pub tick_if : ℕ → ℕ → Cell → Cell
tick_if (suc n) over c = record c { pause = n }
tick_if zero over c = turn over (moved_top over c) c

-- The interval runs, with content that overflows by `over`.
pub tick : ℕ → Cell → Cell
tick over c = tick_if c.pause over c

-- The cell as the preview opens, where it overflows enough to be scrolled.
pub set_up : ℕ → Option Cell
set_up over = if ltb over 4 then none else some (record { top = 0; down = true; pause = 24 })

pub pad : ℕ → Text
pad n = (if ltb n 10 then b'0' ∷ [] else []) ++ decimal n

-- `fmtCountdown`, with the time in milliseconds.
pub fmt_countdown : ℤ → ℕ → Text
fmt_countdown target now_ms =
    let left = target -ℤ pos (now_ms / 1000) in
    let s = if ltb_ℤ left (pos 0) then 0 else pos_part left in
    let d = s / 86400 in
    let s₁ = s % 86400 in
    let h = s₁ / 3600 in
    let s₂ = s₁ % 3600 in
    decimal d
    ++ (b'd'
        ∷ b' '
        ∷ (pad h
            ++ (b'u' ∷ b' ' ∷ (pad (s₂ / 60) ++ (b'm' ∷ b' ' ∷ (pad (s₂ % 60) ++ (b's' ∷ [])))))))

pub show_target : Option ℤ → ℕ → Live → Live
show_target none now el = el
show_target (some t) now el = record el { text = fmt_countdown t now }

-- `tickCountdowns()`, for the countdowns of the stage
pub tick_countdowns : ℕ → List Live → List Live
tick_countdowns now [] = []
tick_countdowns now (el ∷ els) = show_target (parse_int el.target) now el ∷ tick_countdowns now els
