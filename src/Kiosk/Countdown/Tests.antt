-- ===== src/Kiosk/Countdown/Tests.antt =====
-- Concrete countdowns.
use familyplanner.Prelude.{◌≡◌, refl, pos}
use Prim.Native.String.{String}
use Prim.Native.Char.{code}
use familyplanner.Prelude.{List, [], ◌∷◌, ℕ}
use familyplanner.Kiosk.Countdown.{pad, remaining, format, fmt_countdown}
use familyplanner.Kiosk.Countdown.Digits.{decimal}

abbrev codes : String → List ℕ
codes String.[] = []
codes (String.◌∷◌ c s) = code c ∷ codes s

one_of_each : fmt_countdown (pos 93_784) 999 ≡ codes "1d 02u 03m 04s"
unfolding fmt_countdown remaining format pad decimal
one_of_each = refl
