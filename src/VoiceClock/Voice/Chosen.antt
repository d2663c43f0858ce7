-- ===== src/VoiceClock/Voice/Chosen.antt =====
-- Which voice speaks.
use mathlib.Core.List.{Mem, mem-cons_self, mem-cons_of_mem}
use familyplanner.Prelude.{
  ◌≡◌, Bool, true, false, Option, none, some, List, [], ◌∷◌, Bool-cases, inl, inr,
}
use familyplanner.Kiosk.Countdown.{Text}
use familyplanner.VoiceClock.Voice.{Voice, is_dutch, is_belgian, find, or_else, set_voice}

-- No voice of the list has a tag that passes the test.
abbrev pub NoneHas : (Text → Bool) → List Voice → Type 0
NoneHas p [] = Unit
NoneHas p (v ∷ vs) = (p v.lang ≡ false) × NoneHas p vs

pub data Chosen (vs : List Voice) : Option Voice → Type 0 where
  flemish : (v : Voice) → Mem v vs → is_belgian v.lang ≡ true → Chosen vs (some v)
  dutch :
      (v : Voice) → Mem v vs → is_dutch v.lang ≡ true → NoneHas is_belgian vs → Chosen vs (some v)
  unset : NoneHas is_belgian vs → NoneHas is_dutch vs → Chosen vs none

-- What a search finds.
data Found (p : Text → Bool) (vs : List Voice) : Option Voice → Type 0 where
  hit : (v : Voice) → Mem v vs → p v.lang ≡ true → Found p vs (some v)
  miss : NoneHas p vs → Found p vs none

find-Found : (p : Text → Bool) (vs : List Voice) → Found p vs (find p vs)
unfolding find
find-Found p [] = miss tt
find-Found p (v ∷ vs) = elim (Bool-cases (p v.lang)) [
  | inl e ↦ rw e (hit v mem-cons_self e)
  | inr e ↦ rw e (further v vs (find p vs) e (find-Found p vs))
]
  where
    further :
        (v : Voice) (vs : List Voice) (o : Option Voice)
        → p v.lang ≡ false
        → Found p vs o
        → Found p (v ∷ vs) o
    further v vs _ e (hit w m h) = hit w (mem-cons_of_mem v m) h
    further v vs _ e (miss h) = miss (e, h)

or_else-Chosen :
    (vs : List Voice) (a b : Option Voice)
    → Found is_belgian vs a
    → Found is_dutch vs b
    → Chosen vs (or_else a b)
unfolding or_else
or_else-Chosen vs _ b (hit v m h) f = flemish v m h
or_else-Chosen vs _ _ (miss n) (hit v m h) = dutch v m h n
or_else-Chosen vs _ _ (miss n) (miss k) = unset n k

-- A voice for Flemish speaks where the browser has one; else one for Dutch, where it has one; and where
-- it has neither, none is set.
pub set_voice-Chosen : (vs : List Voice) → Chosen vs (set_voice vs)
unfolding set_voice
set_voice-Chosen vs =
    or_else-Chosen vs (find is_belgian vs) (find is_dutch vs) (find-Found is_belgian vs)
      (find-Found is_dutch vs)
