-- ===== src/Server/Chimes/Heard.antt =====
-- A chime that the server decides on, and the page that gets it.
use Prim.Native.String.{String, ◌++◌ as join}
use familyplanner.Prelude.{
  ℕ, zero, suc, ◌+◌, ◌%◌, ◌/◌, ◌<◌, arith, ◌≡◌, refl, ◌∙◌, ap, Bool, true, false, not, ◌||◌, Option,
  none, some, subst, Bool-cases, inl, inr, get_elem?,
}
use mathlib.Core.Option.{some-injective}
use text.Mathlib.Text.{◌==◌ as str_eq}
use familyplanner.VoiceClock.{Sound, silent, Chime, snoozed, speaks, run_chime}
use familyplanner.VoiceClock.Audible.{heard, has_sound, run_chime-heard, speaks-text, speaks-due}
use familyplanner.Server.Chimes.{
  Config, sound_for_quarter, in_quiet, is_silent, or_panic, dutch_hours, dutch_hour, quarter_chime,
  hour_chime, chime_at, decide,
}

named : (r : ℕ) → r < 12 → str_eq (join (or_panic (get_elem? dutch_hours r)) " uur") "" ≡ false
unfolding dutch_hours or_panic
named zero l = refl
named (suc zero) l = refl
named (suc (suc zero)) l = refl
named (suc (suc (suc zero))) l = refl
named (suc (suc (suc (suc zero)))) l = refl
named (suc (suc (suc (suc (suc zero))))) l = refl
named (suc (suc (suc (suc (suc (suc zero)))))) l = refl
named (suc (suc (suc (suc (suc (suc (suc zero))))))) l = refl
named (suc (suc (suc (suc (suc (suc (suc (suc zero)))))))) l = refl
named (suc (suc (suc (suc (suc (suc (suc (suc (suc zero))))))))) l = refl
named (suc (suc (suc (suc (suc (suc (suc (suc (suc (suc zero)))))))))) l = refl
named (suc (suc (suc (suc (suc (suc (suc (suc (suc (suc (suc zero))))))))))) l = refl
named (suc (suc (suc (suc (suc (suc (suc (suc (suc (suc (suc (suc r)))))))))))) l =
    absurd (omega arith)

pub dutch_hour-nonempty : (h : ℕ) → str_eq (dutch_hour h) "" ≡ false
unfolding dutch_hour
dutch_hour-nonempty h = named ((h % 12 + 12) % 12) (omega arith)

-- A chime is to be heard.
abbrev IsLoud : Option Chime → Type 0
IsLoud none = Unit
IsLoud (some d) = (has_sound d.sound || speaks d) ≡ true

quarter-IsLoud : (s : Sound) (q h : ℕ) → IsLoud (quarter_chime s q h)
unfolding quarter_chime is_silent
quarter-IsLoud silent q h = tt
quarter-IsLoud _ q h = refl

hour-IsLoud : (s : Sound) (h : ℕ) (c : Config) → IsLoud (hour_chime s h c)
unfolding hour_chime is_silent
hour-IsLoud silent h c = elim (Bool-cases c.announce) [
  | inl e ↦ rw e (speaks-text _ refl (dutch_hour-nonempty h))
  | inr e ↦ rw e tt
]
hour-IsLoud _ h c = refl

chime_at-IsLoud : (q h : ℕ) (c : Config) → IsLoud (chime_at q h c)
unfolding chime_at
chime_at-IsLoud zero h c = hour-IsLoud (sound_for_quarter 0 c) h c
chime_at-IsLoud (suc q) h c = quarter-IsLoud (sound_for_quarter (suc q) c) (suc q) h

IsLoud-some :
    (o : Option Chime) (d : Chime) → IsLoud o → o ≡ some d → (has_sound d.sound || speaks d) ≡ true
IsLoud-some none d h e = cc e
IsLoud-some (some x) d h e =
    subst (λ y. (has_sound y.sound || speaks y) ≡ true) (some-injective _ _ e) h

decide-some :
    (c : Config) (now : ℕ) (d : Chime)
    → decide c now ≡ some d
    → ((c.enabled ≡ true) × (in_quiet c now ≡ false)) × ((has_sound d.sound || speaks d) ≡ true)
unfolding decide
decide-some c now d h = elim (Bool-cases (not c.enabled || in_quiet c now)) [
  | inl e ↦ absurd (cc (rw e at h))
  | inr e ↦ (
    awake c.enabled (in_quiet c now) e,
    IsLoud-some (chime_at (now % 60 / 15 % 4) (now / 60) c) d
        (chime_at-IsLoud (now % 60 / 15 % 4) (now / 60) c) (rw e at h),
  )
]
  where
    awake : (a b : Bool) → (not a || b) ≡ false → (a ≡ true) × (b ≡ false)
    awake true b h = (refl, h)
    awake false b h = absurd (cc h)

-- A chime that the server decides on is for a clock that is switched on and a time that is not quiet, and
-- every page on which the chimes are not snoozed plays or speaks something at it.
pub decided_heard :
    (c : Config) (now : ℕ) (d : Chime) (due : ℕ) (stored : Option String)
    → decide c now ≡ some d
    → snoozed stored ≡ false
    → (c.enabled ≡ true)
      × ((in_quiet c now ≡ false) × (heard (run_chime stored (record d { due_at = due })) ≡ true))
decided_heard c now d due stored h n =
    let (a, l) = decide-some c now d h in
    (
      a.0,
      (
        a.1,
        run_chime-heard stored (record d { due_at = due }) n
            (ap (λ b. has_sound d.sound || b) (speaks-due d due) ∙ l),
      ),
    )
