-- ===== src/VoiceClock/Audible.antt =====
-- Which chimes can be heard.
use Prim.Native.String.{String}
use familyplanner.Prelude.{
  ℕ, zero, suc, ◌≡◌, refl, ap, Bool, true, false, ◌||◌, ◌&&◌, not, none, Option, List, [], ◌∷◌,
  if◌then◌else◌, sym, ◌∙◌, Bool-cases, inl, inr,
}
use text.Mathlib.Text.{◌==◌ as str_eq}
use familyplanner.VoiceClock.{
  Stroke, bell, bingbong, gong, pips, single_bell, time_pips, phrase, qseq, ring, ring_all,
  westminster, Sound, bing, bong, bing_bong, gong_stroke, pip_tones, timesignal, westminster_chimes,
  silent, play_sound, Chime, Action, strokes, say, say_then_pips, snoozed, speaks, time_signal,
  then_say, sound_and_say, chime_sound, chime_unless, run_chime, no_data, on_chime,
}

abbrev pub is_heard : Action → Bool
is_heard (strokes []) = false
is_heard (strokes (s ∷ ss)) = true
is_heard (say n t) = true
is_heard (say_then_pips n t d) = true

abbrev pub heard : List Action → Bool
heard [] = false
heard (strokes [] ∷ as₁) = heard as₁
heard (_ ∷ as₁) = true

abbrev pub has_sound : Sound → Bool
has_sound silent = false
has_sound _ = true

abbrev nonempty : List Stroke → Bool
nonempty [] = false
nonempty (s ∷ ss) = true

strokes-heard :
    (ss : List Stroke) (as₁ : List Action) → nonempty ss ≡ true → heard (strokes ss ∷ as₁) ≡ true
strokes-heard [] as₁ h = cc h
strokes-heard (s ∷ ss) as₁ h = refl

westminster-nonempty : (q h : ℕ) → nonempty (westminster q h).0 ≡ true
unfolding westminster qseq ring_all ring phrase
westminster-nonempty zero h = refl
westminster-nonempty (suc zero) h = refl
westminster-nonempty (suc (suc zero)) h = refl
westminster-nonempty (suc (suc (suc zero))) h = refl
westminster-nonempty (suc (suc (suc (suc q)))) h = refl

play_sound-nonempty :
    (s : Sound) (q h : ℕ) → has_sound s ≡ true → nonempty (play_sound s q h).0 ≡ true
unfolding play_sound bingbong gong pips single_bell time_pips
play_sound-nonempty silent q h e = cc e
play_sound-nonempty westminster_chimes q h e = westminster-nonempty q h
play_sound-nonempty bing q h e = refl
play_sound-nonempty bong q h e = refl
play_sound-nonempty bing_bong q h e = refl
play_sound-nonempty gong_stroke q h e = refl
play_sound-nonempty pip_tones q h e = refl
play_sound-nonempty timesignal q h e = refl

sound_and_say-heard : (d : Chime) → has_sound d.sound ≡ true → heard (sound_and_say d) ≡ true
unfolding sound_and_say
sound_and_say-heard d e = strokes-heard _ _ (play_sound-nonempty d.sound d.quarter d.hour e)

say-heard : (ss : List Stroke) (n : ℕ) (t : String) → heard (strokes ss ∷ say n t ∷ []) ≡ true
say-heard [] n t = refl
say-heard (s ∷ ss) n t = refl

spoken-heard : (d : Chime) → speaks d ≡ true → heard (sound_and_say d) ≡ true
unfolding sound_and_say then_say
spoken-heard d e = rw e (say-heard _ _ _)

time_signal-heard : (b : Bool) (d : Chime) → heard (time_signal b d) ≡ true
unfolding time_signal time_pips
time_signal-heard false d = refl
time_signal-heard true d = attention-heard d.attention
  where
    attention-heard :
        (b : Bool)
        → heard (
            if b
            then strokes (bell 65925 0 1400 34 ∷ bell 52325 500 1900 34 ∷ [])
              ∷ say_then_pips 2200 d.text d.due_at
              ∷ []
            else say_then_pips 0 d.text d.due_at ∷ [])
          ≡ true
    attention-heard true = refl
    attention-heard false = refl

chime_sound-heard :
    (s : Sound) (d : Chime)
    → d.sound ≡ s
    → (has_sound s || speaks d) ≡ true
    → heard (chime_sound s d) ≡ true
unfolding chime_sound
chime_sound-heard timesignal d q e = time_signal-heard (speaks d) d
chime_sound-heard silent d q e = spoken-heard d e
chime_sound-heard bing d q e = sound_and_say-heard d (ap has_sound q)
chime_sound-heard bong d q e = sound_and_say-heard d (ap has_sound q)
chime_sound-heard bing_bong d q e = sound_and_say-heard d (ap has_sound q)
chime_sound-heard gong_stroke d q e = sound_and_say-heard d (ap has_sound q)
chime_sound-heard pip_tones d q e = sound_and_say-heard d (ap has_sound q)
chime_sound-heard westminster_chimes d q e = sound_and_say-heard d (ap has_sound q)

-- Where the chimes are not snoozed, a chime that has a sound or a text to be spoken is heard.
pub run_chime-heard :
    (stored : Option String) (d : Chime)
    → snoozed stored ≡ false
    → (has_sound d.sound || speaks d) ≡ true
    → heard (run_chime stored d) ≡ true
unfolding run_chime chime_unless
run_chime-heard stored d n e = rw n (chime_sound-heard d.sound d refl e)

pub speaks-text : (d : Chime) → d.announce ≡ true → str_eq d.text "" ≡ false → speaks d ≡ true
unfolding speaks
speaks-text d a t = rw (a, t) refl

pub speaks-due : (d : Chime) (due : ℕ) → speaks (record d { due_at = due }) ≡ speaks d
unfolding speaks
speaks-due d due = refl

unheard : (b : Bool) → heard (chime_unless b no_data) ≡ false
unfolding chime_unless no_data chime_sound sound_and_say play_sound then_say speaks
unheard true = refl
unheard false = refl

-- A message whose data do not parse is not heard.
pub broken-heard : (stored : Option String) → heard (on_chime stored none) ≡ false
unfolding on_chime run_chime
broken-heard stored = unheard (snoozed stored && not no_data.preview)

speaks-quiet : (d : Chime) → d.announce ≡ false → speaks d ≡ false
unfolding speaks
speaks-quiet d a = rw a refl

-- Where what is to be announced has a text.
pub speaks-announce :
    (d : Chime) → (d.announce ≡ true → str_eq d.text "" ≡ false) → speaks d ≡ d.announce
speaks-announce d h = elim (Bool-cases d.announce) [
  | inl a ↦ speaks-text d a (h a) ∙ sym a
  | inr a ↦ speaks-quiet d a ∙ sym a
]
