-- ===== src/Server/Chimes/Beat.antt =====
-- The time signal, from the timer of the server to the page.
use Prim.Native.String.{String}
use familyplanner.Prelude.{
  ℕ, zero, suc, ◌+◌, ◌/◌, ◌%◌, ◌≤◌, ◌≡◌, refl, sym, ap, ◌∙◌, subst, Bool, true, false, not, ◌&&◌,
  ◌||◌, Option, none, some, if◌then◌else◌, arith, Bool-cases, inl, inr,
}
use mathlib.Core.Option.{some-injective}
use familyplanner.VoiceClock.{Sound, timesignal, Chime, snoozed, speaks, run_chime}
use familyplanner.VoiceClock.Audible.{speaks-announce, speaks-due}
use familyplanner.VoiceClock.Pips.{third_pip, signal-due}
use familyplanner.Server.Chimes.{
  Config, is_signal, speech_ms, lead, chime_delay, quarter_chime, hour_chime, is_silent, chime_at,
  sound_for_quarter, in_quiet, decide,
}
use familyplanner.Server.Chimes.Heard.{dutch_hour-nonempty}

-- A chime that is to be announced has a text.
abbrev IsSaid : Option Chime → Type 0
IsSaid none = Unit
IsSaid (some d) = speaks d ≡ d.announce

quarter-IsSaid : (s : Sound) (q h : ℕ) → IsSaid (quarter_chime s q h)
unfolding quarter_chime
quarter-IsSaid s q h = elim (Bool-cases (is_silent s)) [
  | inl e ↦ rw e tt
  | inr e ↦ rw e (speaks-announce _ (λ a. absurd (cc a)))
]

hour-IsSaid : (s : Sound) (h : ℕ) (c : Config) → IsSaid (hour_chime s h c)
unfolding hour_chime
hour-IsSaid s h c = elim (Bool-cases (is_silent s && not c.announce)) [
  | inl e ↦ rw e tt
  | inr e ↦ rw e (speaks-announce _ (λ a. rw a (dutch_hour-nonempty h)))
]

chime_at-IsSaid : (q h : ℕ) (c : Config) → IsSaid (chime_at q h c)
unfolding chime_at
chime_at-IsSaid zero h c = hour-IsSaid (sound_for_quarter 0 c) h c
chime_at-IsSaid (suc q) h c = quarter-IsSaid (sound_for_quarter (suc q) c) (suc q) h

IsSaid-some : (o : Option Chime) (d : Chime) → IsSaid o → o ≡ some d → speaks d ≡ d.announce
IsSaid-some none d h e = cc e
IsSaid-some (some x) d h e = subst (λ y. speaks y ≡ y.announce) (some-injective _ _ e) h

decide-IsSaid : (c : Config) (now : ℕ) (d : Chime) → decide c now ≡ some d → speaks d ≡ d.announce
unfolding decide
decide-IsSaid c now d h = elim (Bool-cases (not c.enabled || in_quiet c now)) [
  | inl e ↦ absurd (cc (rw e at h))
  | inr e ↦
      IsSaid-some (chime_at (now % 60 / 15 % 4) (now / 60) c) d
        (chime_at-IsSaid (now % 60 / 15 % 4) (now / 60) c) (rw e at h)
]

lead-announced :
    (words : String → ℕ) (rate : ℕ) (d : Chime)
    → d.sound ≡ timesignal
    → d.announce ≡ true
    → lead words rate d
      ≡ 2_000 + (if d.attention then 3_000 else 0) + speech_ms (8 + words d.text) rate
unfolding lead is_signal
lead-announced words rate d e a = rw (e, a) refl

lead-pips :
    (words : String → ℕ) (rate : ℕ) (d : Chime)
    → d.sound ≡ timesignal
    → d.announce ≡ false
    → lead words rate d ≡ 2_000
unfolding lead is_signal
lead-pips words rate d e a = rw (e, a) refl

-- The timer that is set in time sends the chime its lead before the beat.
sent_early :
    (words : String → ℕ) (rate now beat : ℕ) (d : Chime)
    → now + lead words rate d ≤ beat
    → now + chime_delay words rate now beat (some d) + lead words rate d ≡ beat
unfolding chime_delay
sent_early words rate now beat d h = ground (arith, h)

spoken_early :
    (a : Bool) (t estimate spoken beat : ℕ)
    → spoken ≤ estimate
    → t + (2000 + (if a then 3000 else 0) + estimate) ≡ beat
    → t + (if a then 2200 else 0) + spoken + 2000 ≤ beat
spoken_early true t estimate spoken beat h e = omega arith
spoken_early false t estimate spoken beat h e = omega arith

-- The server has decided on a time signal, set its timer at a time that is the lead before the beat or
-- earlier, and the page gets the chime when the timer fires. If the chimes are not snoozed there and the
-- phrase takes no longer than the server estimates, the third pip begins at the beat, whether there is a
-- phrase or none, and with bells before it or without.
pub third_pip_on_beat :
    (c : Config) (minute : ℕ) (d : Chime) (words : String → ℕ) (rate now beat spoken : ℕ)
    (stored : Option String)
    → decide c minute ≡ some d
    → d.sound ≡ timesignal
    → snoozed stored ≡ false
    → spoken ≤ speech_ms (8 + words d.text) rate
    → now + lead words rate d ≤ beat
    → third_pip
        (now + chime_delay words rate now beat (some d))
        spoken
        (run_chime stored (record d { due_at = beat }))
      ≡ some beat
third_pip_on_beat c minute d words rate now beat spoken stored h e n q l =
    let t = now + chime_delay words rate now beat (some d) in
    let s = decide-IsSaid c minute d h in
    let u = speaks-due d beat in
    let k = sent_early words rate now beat d l in
    signal-due stored t spoken (record d { due_at = beat }) e n
      (λ v.
        spoken_early d.attention t (speech_ms (8 + words d.text) rate) spoken beat q
          (ap (λ m. t + m) (sym (lead-announced words rate d e (sym s ∙ sym u ∙ v))) ∙ k))
      (λ v. ap (λ m. t + m) (sym (lead-pips words rate d e (sym s ∙ sym u ∙ v))) ∙ k)
