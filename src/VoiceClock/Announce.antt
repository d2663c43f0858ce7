-- ===== src/VoiceClock/Announce.antt =====
-- What a chime plays and says, in which order and when.
use Prim.Native.String.{String}
use familyplanner.Prelude.{
  ℕ, zero, suc, ◌+◌, ◌*◌, ◌%◌, ◌≤◌, ◌<◌, ◌≡◌, refl, ◌∙◌, ap, Bool, true, false, not, ◌&&◌, Option,
  some, List, [], ◌∷◌, if◌then◌else◌, ◌==◌, length, get_elem?, arith, Bool-cases, inl, inr,
}
use mathlib.Core.Option.{some-injective}
use familyplanner.VoiceClock.{
  Stroke, bell, beep, time_pips, phrase, qseq, ring, ring_all, strikes, hour_strokes, westminster,
  Sound, timesignal, play_sound, Chime, Action, strokes, say, say_then_pips, snoozed, fp_snooze,
  speaks, time_signal, then_say, sound_and_say, chime_sound, chime_unless, run_chime, pips_delay,
}
use familyplanner.VoiceClock.Strokes.{onset, AllBefore, play_sound-AllBefore, length-strike}

-- No sentence of the later actions begins before all of the strokes have.
abbrev pub Follows : List Stroke → List Action → Type 0
Follows ss [] = Unit
Follows ss (strokes ts ∷ as₁) = Follows ss as₁
Follows ss (say n t ∷ as₁) = AllBefore n ss × Follows ss as₁
Follows ss (say_then_pips n t d ∷ as₁) = AllBefore n ss × Follows ss as₁

abbrev pub IsOrdered : List Action → Type 0
IsOrdered [] = Unit
IsOrdered (strokes ss ∷ as₁) = Follows ss as₁ × IsOrdered as₁
IsOrdered (say n t ∷ as₁) = IsOrdered as₁
IsOrdered (say_then_pips n t d ∷ as₁) = IsOrdered as₁

then_say-IsOrdered :
    (b : Bool) (dur : ℕ) (text : String) (ss : List Stroke)
    → AllBefore (dur + 400) ss
    → IsOrdered (strokes ss ∷ then_say b dur text)
unfolding then_say
then_say-IsOrdered true dur text ss a = ((a, tt), tt)
then_say-IsOrdered false dur text ss a = (tt, tt)

sound_and_say-IsOrdered : (d : Chime) → IsOrdered (sound_and_say d)
unfolding sound_and_say
sound_and_say-IsOrdered d =
    then_say-IsOrdered (speaks d) (play_sound d.sound d.quarter d.hour).1 d.text
      (play_sound d.sound d.quarter d.hour).0 (play_sound-AllBefore d.sound d.quarter d.hour)

lead_in-IsOrdered :
    (b : Bool) (text : String) (n : ℕ)
    → IsOrdered (
        if b
        then strokes (bell 65925 0 1400 34 ∷ bell 52325 500 1900 34 ∷ [])
          ∷ say_then_pips 2200 text n
          ∷ []
        else say_then_pips 0 text n ∷ [])
lead_in-IsOrdered true text n = (((omega arith, (omega arith, tt)), tt), tt)
lead_in-IsOrdered false text n = tt

time_signal-IsOrdered : (b : Bool) (d : Chime) → IsOrdered (time_signal b d)
unfolding time_signal
time_signal-IsOrdered false d = (tt, tt)
time_signal-IsOrdered true d = lead_in-IsOrdered d.attention d.text d.due_at

chime_sound-IsOrdered : (s : Sound) (d : Chime) → IsOrdered (chime_sound s d)
unfolding chime_sound
chime_sound-IsOrdered timesignal d = time_signal-IsOrdered (speaks d) d
chime_sound-IsOrdered _ d = sound_and_say-IsOrdered d

chime_unless-IsOrdered : (b : Bool) (d : Chime) → IsOrdered (chime_unless b d)
unfolding chime_unless
chime_unless-IsOrdered true d = tt
chime_unless-IsOrdered false d = chime_sound-IsOrdered d.sound d

-- Whatever a chime asks for, no sentence of it begins before all strokes of its sound have begun.
pub run_chime-IsOrdered : (stored : Option String) (d : Chime) → IsOrdered (run_chime stored d)
unfolding run_chime
run_chime-IsOrdered stored d = chime_unless-IsOrdered (snoozed stored && not d.preview) d

strikes_lem : (h : ℕ) → strikes h ≡ (h + 11) % 12 + 1
unfolding strikes
strikes_lem h = ground arith

length-hour : (h t : ℕ) → length (hour_strokes true h t).0 ≡ strikes h
unfolding hour_strokes
length-hour h t = length-strike (strikes h) (t + 500)

sixteen :
    (a b : ℕ)
    → a ≡ b
    → suc
        (suc (suc (suc (suc (suc (suc (suc (suc (suc (suc (suc (suc (suc (suc (suc a)))))))))))))))
      ≡ 16 + b
sixteen a b e = omega arith

length-westminster_strokes :
    (q h : ℕ) → q < 4 → length (westminster q h).0 ≡ (if q == 0 then 16 + strikes h else 4 * q)
unfolding westminster qseq ring_all ring phrase hour_strokes
length-westminster_strokes zero h l = sixteen _ (strikes h) (length-strike (strikes h) 12220)
length-westminster_strokes (suc zero) h l = refl
length-westminster_strokes (suc (suc zero)) h l = refl
length-westminster_strokes (suc (suc (suc zero))) h l = refl
length-westminster_strokes (suc (suc (suc (suc q)))) h l = absurd (omega arith)

-- A quarter rings as many phrases of four bells as it counts; the full hour rings four, and then as
-- many strokes as a clock face shows for it.
pub length-westminster :
    (q h : ℕ)
    → q < 4
    → (length (westminster q h).0 ≡ (if q == 0 then 16 + ((h + 11) % 12 + 1) else 4 * q))
length-westminster q h l =
    length-westminster_strokes q h l ∙ ap (λ n. if q == 0 then 16 + n else 4 * q) (strikes_lem h)

-- If the sentence is over two seconds or more before the hour, the third of the pips that follow it
-- begins on the hour.
pub third_pip_on_time :
    (due_at now : ℕ) (third : Stroke)
    → now + 2000 ≤ due_at
    → get_elem? time_pips 2 ≡ some third
    → now + pips_delay due_at now + onset third ≡ due_at
unfolding time_pips pips_delay
third_pip_on_time due_at now third l e =
    let s : beep 100000 2000 500 ≡ third = some-injective _ _ e in
    let o : 2000 ≡ onset third = ap onset s in ground (arith, o, l)

pub fp_snooze-flips : (s : Option String) → snoozed (fp_snooze s) ≡ not (snoozed s)
unfolding fp_snooze snoozed
fp_snooze-flips s = elim (Bool-cases (snoozed s)) [ inl e ↦ rw e refl | inr e ↦ rw e refl ]

-- One press of the snooze key mutes the chimes that are no previews, and a second one brings back what
-- they did before.
pub fp_snooze-mutes :
    (stored : Option String) (d : Chime)
    → d.preview ≡ false
    → snoozed stored ≡ false
    → (run_chime (fp_snooze stored) d ≡ [])
      × (run_chime (fp_snooze (fp_snooze stored)) d ≡ run_chime stored d)
unfolding run_chime chime_unless
fp_snooze-mutes stored d p s =
    let f = fp_snooze-flips stored in
    let g = fp_snooze-flips (fp_snooze stored) in (rw (f, s, p) refl, rw (g, f, s) refl)
