-- ===== src/Kiosk/Countdown/Tick/Tests.antt =====
-- Two countdowns, one of which has no readable target.
use Prim.Native.String.{String}
use Prim.Native.Char.{code}
use familyplanner.Prelude.{◌≡◌, refl, List, [], ◌∷◌, ℕ}
use familyplanner.Kiosk.Countdown.{pad, remaining, format, fmt_countdown}
use familyplanner.Kiosk.Countdown.Digits.{decimal, read}
use familyplanner.Kiosk.Countdown.Tick.{
  Live, is_space, skip_spaces, leading, negative, positive, signed, parse_int, show_target,
  tick_countdowns,
}
use familyplanner.Kiosk.Countdown.Tick.Shown.{AllShow, tick_countdowns-AllShow}

abbrev codes : String → List ℕ
codes String.[] = []
codes (String.◌∷◌ c s) = code c ∷ codes s

abbrev shown : List Live
shown =
    record { target = codes " 100000"; text = [] }
    ∷ (record { target = codes "soon"; text = codes "-" } ∷ [])

only_the_first :
    tick_countdowns 6_216_999 shown
    ≡ record { target = codes " 100000"; text = codes "1d 02u 03m 04s" }
      ∷ (record { target = codes "soon"; text = codes "-" } ∷ [])
unfolding tick_countdowns show_target parse_int signed negative positive leading skip_spaces
    is_space read fmt_countdown remaining format pad decimal
only_the_first = refl

tick_countdowns-AllShow_example : AllShow 6_216_999 shown (tick_countdowns 6_216_999 shown)
tick_countdowns-AllShow_example = tick_countdowns-AllShow 6_216_999 shown
