-- ===== src/Kiosk/Countdown/Tick.antt =====
-- The countdowns of a page, kiosk.js: `tickCountdowns` with `parseInt`, for texts of ASCII characters.
mod Shown
mod Tests
use familyplanner.Prelude.{
  ℕ, zero, suc, ◌+◌, Bool, true, false, ◌&&◌, ◌||◌, Option, none, some, List, [], ◌∷◌,
  if◌then◌else◌, leb, ◌==◌, ℤ, pos, negsuc, ◌-ℤ◌,
}
use familyplanner.Kiosk.Countdown.{Text, fmt_countdown}
use familyplanner.Kiosk.Countdown.Digits.{read, is_digit}

-- A `.countdown-live`: its `data-target` and its text.
pub record Live : Type 0 where
  pub target : Text
  pub text : Text

pub is_space : ℕ → Bool
is_space c = c == b' ' || (leb 9 c && leb c 13)

pub skip_spaces : Text → Text
skip_spaces [] = []
skip_spaces (c ∷ t) = let rest = skip_spaces t in if is_space c then rest else c ∷ t

-- The number that a text begins with, if it begins with a digit.
pub leading : Text → Option ℕ
leading [] = none
leading (c ∷ t) = if is_digit c then some (read 0 (c ∷ t)).0 else none

pub negative : Option ℕ → Option ℤ
negative none = none
negative (some n) = some (pos 0 -ℤ pos n)

pub positive : Option ℕ → Option ℤ
positive none = none
positive (some n) = some (pos n)

pub signed : Text → Option ℤ
signed [] = none
signed (c ∷ t) =
    if c == b'-'
    then negative (leading t)
    else if c == b'+'
    then positive (leading t)
    else positive (leading (c ∷ t))

-- `parseInt(t, 10)`, where `none` is not a number
pub parse_int : Text → Option ℤ
parse_int t = signed (skip_spaces t)

unfoldable pub show_target : Option ℤ → ℕ → Live → Live
show_target none now el = el
show_target (some t) now el = record el { text = fmt_countdown t now }

-- `tickCountdowns()`
unfoldable pub tick_countdowns : ℕ → List Live → List Live
tick_countdowns now [] = []
tick_countdowns now (el ∷ els) = show_target (parse_int el.target) now el ∷ tick_countdowns now els
