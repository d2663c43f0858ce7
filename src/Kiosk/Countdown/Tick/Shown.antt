-- ===== src/Kiosk/Countdown/Tick/Shown.antt =====
-- What the countdowns of a page say after a tick.
use familyplanner.Prelude.{ℕ, ◌≡◌, refl, arith, Option, none, some, List, [], ◌∷◌, ℤ, pos, negsuc}
use familyplanner.Kiosk.Countdown.{Text, remaining, fmt_countdown}
use familyplanner.Kiosk.Countdown.Laws.{parse, Ahead, parse-fmt_countdown}
use familyplanner.Kiosk.Countdown.Tick.{Live, parse_int, show_target, tick_countdowns}

-- What a tick at `now` makes of an element: where its target is a number, the text, read back, is the
-- time in whole seconds that lies between then and now; where it is not, nothing changes.
pub data Shows (now : ℕ) (el : Live) : Live → Type 0 where
  counts :
      (t : ℤ) (s : ℕ) (text : Text)
      → parse_int el.target ≡ some t
      → Ahead t now s
      → parse text ≡ some s
      → Shows now el (record el { text = text })
  unreadable : parse_int el.target ≡ none → Shows now el el

pub data AllShow (now : ℕ) : List Live → List Live → Type 0 where
  nil : AllShow now [] []
  cons :
      (a b : Live) (as₁ bs : List Live)
      → Shows now a b
      → AllShow now as₁ bs
      → AllShow now (a ∷ as₁) (b ∷ bs)

remaining-Ahead : (t : ℤ) (now : ℕ) → Ahead t now (remaining t now)
unfolding remaining
remaining-Ahead (pos a) now = ground arith
remaining-Ahead (negsuc a) now = ground arith

show_target-Shows :
    (o : Option ℤ) (now : ℕ) (el : Live)
    → parse_int el.target ≡ o
    → Shows now el (show_target o now el)
unfolding show_target
show_target-Shows none now el e = unreadable e
show_target-Shows (some t) now el e =
    let a = remaining-Ahead t now in
    counts t (remaining t now) (fmt_countdown t now) e a
      (parse-fmt_countdown t now (remaining t now) a)

-- After a tick every countdown of the page whose target is a number says, read back, how many whole
-- seconds are left until then, and 0 once it has passed; the others are as they were.
pub tick_countdowns-AllShow :
    (now : ℕ) (els : List Live) → AllShow now els (tick_countdowns now els)
unfolding tick_countdowns
tick_countdowns-AllShow now [] = nil
tick_countdowns-AllShow now (el ∷ els) =
    cons el (show_target (parse_int el.target) now el) els (tick_countdowns now els)
      (show_target-Shows (parse_int el.target) now el refl) (tick_countdowns-AllShow now els)
