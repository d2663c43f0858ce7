-- ===== src/VoiceClock/Pips.antt =====
-- When the third pip of a time signal begins on the page.
use Prim.Native.String.{String}
use familyplanner.Prelude.{
  ℕ, ◌+◌, ◌≤◌, ◌≡◌, refl, sym, ap, subst, ◌∙◌, Bool, true, false, Option, none, some, List, [], ◌∷◌,
  get_elem?, if◌then◌else◌, arith,
}
use familyplanner.VoiceClock.{
  Stroke, bell, time_pips, Sound, timesignal, Chime, Action, strokes, say_then_pips, snoozed,
  speaks, time_signal, chime_sound, chime_unless, run_chime, pips_delay,
}
use familyplanner.VoiceClock.Strokes.{onset}

abbrev pub plus : ℕ → Option Stroke → Option ℕ
plus t none = none
plus t (some s) = some (t + onset s)

-- When the third pip begins that follows a phrase which ends at a time.
abbrev pub after_speech : ℕ → ℕ → ℕ
after_speech due end = end + pips_delay due end + 2000

-- When the third pip begins on a page that does this from a time on, and where a phrase takes this long.
abbrev pub third_pip : ℕ → ℕ → List Action → Option ℕ
third_pip t spoken [] = none
third_pip t spoken (strokes ss ∷ []) = plus t (get_elem? ss 2)
third_pip t spoken (say_then_pips n text due ∷ as₁) = some (after_speech due (t + n + spoken))
third_pip t spoken (a ∷ as₁) = third_pip t spoken as₁

-- A phrase that is over two seconds or more before the beat.
in_time : (beat end : ℕ) → end + 2000 ≤ beat → after_speech beat end ≡ beat
unfolding pips_delay
in_time beat end h = ground (arith, h)

attended :
    (a : Bool) (text : String) (t spoken due : ℕ)
    → t + (if a then 2200 else 0) + spoken + 2000 ≤ due
    → third_pip t spoken (
        if a
        then strokes (bell 65925 0 1400 34 ∷ bell 52325 500 1900 34 ∷ [])
          ∷ say_then_pips 2200 text due
          ∷ []
        else say_then_pips 0 text due ∷ [])
      ≡ some due
attended true text t spoken due h = ap some (in_time due (t + 2200 + spoken) h)
attended false text t spoken due h = ap some (in_time due (t + 0 + spoken) h)

signal_third :
    (b : Bool) (t spoken : ℕ) (d : Chime)
    → (b ≡ true → t + (if d.attention then 2200 else 0) + spoken + 2000 ≤ d.due_at)
    → (b ≡ false → t + 2000 ≡ d.due_at)
    → third_pip t spoken (time_signal b d) ≡ some d.due_at
unfolding time_signal time_pips
signal_third true t spoken d h k = attended d.attention d.text t spoken d.due_at (h refl)
signal_third false t spoken d h k = ap some (k refl)

sound-signal : (s : Sound) (d : Chime) → s ≡ timesignal → chime_sound s d ≡ time_signal (speaks d) d
unfolding chime_sound
sound-signal s d e = subst (λ x. chime_sound x d ≡ time_signal (speaks d) d) (sym e) refl

-- A time signal that comes in time begins its third pip when it is due.
pub signal-due :
    (stored : Option String) (t spoken : ℕ) (d : Chime)
    → d.sound ≡ timesignal
    → snoozed stored ≡ false
    → (speaks d ≡ true → t + (if d.attention then 2200 else 0) + spoken + 2000 ≤ d.due_at)
    → (speaks d ≡ false → t + 2000 ≡ d.due_at)
    → third_pip t spoken (run_chime stored d) ≡ some d.due_at
unfolding run_chime chime_unless
signal-due stored t spoken d e n h k =
    rw n
      (ap (third_pip t spoken) (sound-signal d.sound d e) ∙ signal_third (speaks d) t spoken d h k)
