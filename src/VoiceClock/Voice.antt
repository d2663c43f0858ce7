-- ===== src/VoiceClock/Voice.antt =====
-- The choice of a voice, voiceclock.js: `setVoice`. A language tag is the list of its characters.
mod Chosen
mod Tests
use familyplanner.Prelude.{
  ℕ, zero, suc, ◌+◌, Bool, true, false, ◌&&◌, ◌||◌, Option, none, some, List, [], ◌∷◌,
  if◌then◌else◌, leb, ◌==◌,
}
use familyplanner.Kiosk.Countdown.{Text}

-- `/…/i` compares letters without their case.
pub lower : ℕ → ℕ
lower c = if leb 65 c && leb c 90 then c + 32 else c

-- `/^nl/i`
pub is_dutch : Text → Bool
is_dutch (a ∷ (b ∷ t)) = lower a == b'n' && lower b == b'l'
is_dutch _ = false

pub is_belgian_here : Text → Bool
is_belgian_here (a ∷ (b ∷ (c ∷ (d ∷ (e ∷ t))))) =
    (lower a == b'n' && lower b == b'l')
    && ((c == b'-' || c == b'_') && (lower d == b'b' && lower e == b'e'))
is_belgian_here _ = false

-- `/nl[-_]BE/i`, anywhere in the tag
pub is_belgian : Text → Bool
is_belgian [] = false
is_belgian (c ∷ t) = is_belgian_here (c ∷ t) || is_belgian t

pub record Voice : Type 0 where
  pub name : Text
  pub lang : Text

-- `voices.find`
pub find : (Text → Bool) → List Voice → Option Voice
find p [] = none
find p (v ∷ vs) = let rest = find p vs in if p v.lang then some v else rest

-- `a || b`
pub or_else : Option Voice → Option Voice → Option Voice
or_else none b = b
or_else (some v) b = some v

-- The voice that `setVoice` sets; with none, the browser's own stays.
pub set_voice : List Voice → Option Voice
set_voice vs = or_else (find is_belgian vs) (find is_dutch vs)
