-- ===== src/Kiosk/Countdown.antt =====
-- The live countdown of kiosk.js: `fmtCountdown`, and a reader of its text.
pub mod Digits
pub mod Laws
pub mod Tick
mod Tests
use familyplanner.Prelude.{
  ℕ, ◌+◌, ◌/◌, ◌%◌, List, [], ◌∷◌, ◌++◌, ltb, if◌then◌else◌, ℤ, pos, ◌-ℤ◌, ltb_ℤ, pos_part,
}
use Digits.{decimal}

-- A text is the list of its character codes.
abbrev pub Text : Type 0
Text = List ℕ

-- `p`: two digits at least.
unfoldable pub pad : ℕ → Text
pad n = (if ltb n 10 then b'0' ∷ [] else []) ++ decimal n

-- `s`, clamped at 0; the time is `Date.now()`, in milliseconds, and a target may lie before 1970.
unfoldable pub remaining : ℤ → ℕ → ℕ
remaining target now_ms =
    let s = target -ℤ pos (now_ms / 1000) in if ltb_ℤ s (pos 0) then 0 else pos_part s

-- The text of `s` seconds; the code's `%=` are written out.
unfoldable pub format : ℕ → Text
format s =
    let d = s / 86400 in
    let s₁ = s % 86400 in
    let h = s₁ / 3600 in
    let s₂ = s₁ % 3600 in
    let m = s₂ / 60 in
    let sec = s₂ % 60 in
    decimal d
    ++ (b'd'
        ∷ b' '
        ∷ (pad h ++ (b'u' ∷ b' ' ∷ (pad m ++ (b'm' ∷ b' ' ∷ (pad sec ++ (b's' ∷ [])))))))

unfoldable pub fmt_countdown : ℤ → ℕ → Text
fmt_countdown target now_ms = format (remaining target now_ms)
