-- ===== src/VoiceClock/Tone/Clean.antt =====
-- No oscillator of any sound clicks.
use familyplanner.Prelude.{
  ℕ, zero, suc, ◌+◌, ◌<◌, ◌≡◌, refl, arith, Bool, true, false, List, [], ◌∷◌, ◌++◌, ◌==◌,
}
use familyplanner.VoiceClock.{
  Stroke, bell, beep, bingbong, time_pips, gong, pips, single_bell, phrase, qseq, ring, ring_all,
  strike, strikes, hour_strokes, westminster, Sound, bing, bong, bing_bong, gong_stroke, pip_tones,
  timesignal, westminster_chimes, silent, play_sound,
}
use familyplanner.VoiceClock.Tone.{Point, Tone, partial, bell_tones, beep_tone, tones, all_tones}

-- From the time `t` on the envelope's times rise, its levels are positive, as an exponential ramp needs,
-- and it ends in silence before `stop`.
abbrev pub Fades : ℕ → ℕ → List Point → Type 0
Fades t stop [] = ⊥
Fades t stop (p ∷ []) = (t < p.time) × (p.level ≡ 1) × (p.time < stop)
Fades t stop (p ∷ (q ∷ ps)) = (t < p.time) × (0 < p.level) × Fades p.time stop (q ∷ ps)

-- The envelope begins in silence as the oscillator starts, and then fades.
abbrev pub IsClean : Tone → Type 0
IsClean tone = elim tone.envelope [
  | [] ↦ ⊥
  | p ∷ ps ↦ (p.time ≡ tone.start) × (p.level ≡ 1) × Fades p.time tone.stop ps
]

abbrev pub AllClean : List Tone → Type 0
AllClean [] = Unit
AllClean (t ∷ ts) = IsClean t × AllClean ts

-- Strokes that are long enough for their envelopes.
abbrev IsLong : Stroke → Type 0
IsLong (bell freq start dur peak) = (12 < dur) × (0 < peak)
IsLong (beep freq start dur) = 25 < dur

abbrev AllLong : List Stroke → Type 0
AllLong [] = Unit
AllLong (s ∷ ss) = IsLong s × AllLong ss

AllLong-append : (ss ts : List Stroke) → AllLong ss → AllLong ts → AllLong (ss ++ ts)
AllLong-append [] ts a b = b
AllLong-append (s ∷ ss) ts a b = (a.0, AllLong-append ss ts a.1 b)

AllClean-append : (ss ts : List Tone) → AllClean ss → AllClean ts → AllClean (ss ++ ts)
AllClean-append [] ts a b = b
AllClean-append (s ∷ ss) ts a b = (a.0, AllClean-append ss ts a.1 b)

tones-AllClean : (s : Stroke) → IsLong s → AllClean (tones s)
unfolding tones bell_tones partial beep_tone
tones-AllClean (bell freq start dur peak) l =
    let a = l.0 in
    let b = l.1 in
    (
      (refl, refl, (omega arith, omega arith, (omega arith, refl, omega arith))),
      ((refl, refl, (omega arith, omega arith, (omega arith, refl, omega arith))), tt),
    )
tones-AllClean (beep freq start dur) l = (
  (
    refl,
    refl,
    (omega arith, omega arith, (omega arith, omega arith, (omega arith, refl, omega arith))),
  ),
  tt,
)

all_tones-AllClean : (ss : List Stroke) → AllLong ss → AllClean (all_tones ss)
unfolding all_tones
all_tones-AllClean [] l = tt
all_tones-AllClean (s ∷ ss) l =
    AllClean-append (tones s) (all_tones ss) (tones-AllClean s l.0) (all_tones-AllClean ss l.1)

ring-AllLong : (fs : List ℕ) (t : ℕ) → AllLong (ring fs t).0
unfolding ring
ring-AllLong [] t = tt
ring-AllLong (f ∷ fs) t = ((omega arith, omega arith), ring-AllLong fs (t + 620))

ring_all-AllLong : (cs : List ℕ) (t : ℕ) → AllLong (ring_all cs t).0
unfolding ring_all
ring_all-AllLong [] t = tt
ring_all-AllLong (c ∷ cs) t =
    let u = (ring (phrase c) t).1 in
    AllLong-append (ring (phrase c) t).0 (ring_all cs (u + 450)).0 (ring-AllLong (phrase c) t)
      (ring_all-AllLong cs (u + 450))

strike-AllLong : (n t : ℕ) → AllLong (strike n t).0
unfolding strike
strike-AllLong zero t = tt
strike-AllLong (suc n) t = ((omega arith, omega arith), strike-AllLong n (t + 1200))

hour-AllLong : (b : Bool) (hour t : ℕ) → AllLong (hour_strokes b hour t).0
unfolding hour_strokes
hour-AllLong true hour t = strike-AllLong (strikes hour) (t + 500)
hour-AllLong false hour t = tt

westminster-AllLong : (q h : ℕ) → AllLong (westminster q h).0
unfolding westminster
westminster-AllLong q h =
    let t = (ring_all (qseq q) 0).1 in
    AllLong-append (ring_all (qseq q) 0).0 (hour_strokes (q == 0) h t).0
      (ring_all-AllLong (qseq q) 0) (hour-AllLong (q == 0) h t)

play_sound-AllLong : (s : Sound) (q h : ℕ) → AllLong (play_sound s q h).0
unfolding play_sound bingbong single_bell gong pips time_pips
play_sound-AllLong bing q h = ((omega arith, omega arith), tt)
play_sound-AllLong bong q h = ((omega arith, omega arith), tt)
play_sound-AllLong bing_bong q h = ((omega arith, omega arith), ((omega arith, omega arith), tt))
play_sound-AllLong gong_stroke q h = ((omega arith, omega arith), ((omega arith, omega arith), tt))
play_sound-AllLong pip_tones q h = (omega arith, (omega arith, (omega arith, (omega arith, tt))))
play_sound-AllLong timesignal q h = (omega arith, (omega arith, (omega arith, tt)))
play_sound-AllLong westminster_chimes q h = westminster-AllLong q h
play_sound-AllLong silent q h = tt

-- Every oscillator of every sound, at every quarter and hour, begins and ends in silence: its gain is
-- set to the least level as it starts, its points follow one another in time at positive levels, and it
-- is stopped only after its gain is back at the least level.
pub play_sound-AllClean : (s : Sound) (q h : ℕ) → AllClean (all_tones (play_sound s q h).0)
play_sound-AllClean s q h = all_tones-AllClean (play_sound s q h).0 (play_sound-AllLong s q h)
