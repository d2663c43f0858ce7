-- ===== src/Preview/Same.antt =====
-- The preview's countdown and the kiosk's.
use familyplanner.Prelude.{ℕ, ◌≡◌, refl, ap, Option, none, some, List, [], ◌∷◌, ℤ}
use familyplanner.Kiosk.Countdown.{
  format, remaining, pad as kiosk_pad, fmt_countdown as kiosk_countdown,
}
use familyplanner.Kiosk.Countdown.Tick.{
  Live, parse_int, show_target as kiosk_show, tick_countdowns as kiosk_tick,
}
use familyplanner.Preview.{pad, fmt_countdown, show_target, tick_countdowns}

-- The preview shows the text that the kiosk shows, for every target at every time.
pub fmt_countdown_same :
    (target : ℤ) (now_ms : ℕ) → fmt_countdown target now_ms ≡ kiosk_countdown target now_ms
unfolding fmt_countdown kiosk_countdown format remaining pad kiosk_pad
fmt_countdown_same target now_ms = refl

show_target_same :
    (t : Option ℤ) (now_ms : ℕ) (el : Live) → show_target t now_ms el ≡ kiosk_show t now_ms el
unfolding show_target kiosk_show
show_target_same none now_ms el = refl
show_target_same (some t) now_ms el =
    ap (λ text. record el { text = text }) (fmt_countdown_same t now_ms)

-- A tick of the preview leaves the countdowns as a tick of the kiosk's page at the same time does.
pub tick_countdowns_same :
    (now_ms : ℕ) (els : List Live) → tick_countdowns now_ms els ≡ kiosk_tick now_ms els
unfolding tick_countdowns kiosk_tick
tick_countdowns_same now_ms [] = refl
tick_countdowns_same now_ms (el ∷ els) =
    λ i. show_target_same (parse_int el.target) now_ms el i ∷ tick_countdowns_same now_ms els i
