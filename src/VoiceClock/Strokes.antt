-- ===== src/VoiceClock/Strokes.antt =====
-- How many strokes the quarters have, and when they start.
use familyplanner.Prelude.{
  ℕ, zero, suc, ◌+◌, ◌≤◌, ◌<◌, ◌≡◌, refl, ap, Bool, true, false, List, [], ◌∷◌, ◌++◌, ◌==◌, length,
  arith,
}
use familyplanner.VoiceClock.{
  Stroke, bell, beep, bingbong, time_pips, gong, pips, single_bell, phrase, qseq, ring, ring_all,
  strike, strikes, hour_strokes, westminster, Sound, bing, bong, bing_bong, gong_stroke, pip_tones,
  timesignal, westminster_chimes, silent, play_sound,
}

abbrev pub onset : Stroke → ℕ
onset (bell f t d p) = t
onset (beep f t d) = t

-- All strokes start before `u`.
abbrev pub AllBefore : ℕ → List Stroke → Type 0
AllBefore u [] = Unit
AllBefore u (s ∷ ss) = (onset s < u) × AllBefore u ss

AllBefore-mono : (u v : ℕ) (ss : List Stroke) → u ≤ v → AllBefore u ss → AllBefore v ss
AllBefore-mono u v [] h a = tt
AllBefore-mono u v (s ∷ ss) h a = (let b = a.0 in omega arith, AllBefore-mono u v ss h a.1)

AllBefore-append :
    (u : ℕ) (ss ts : List Stroke) → AllBefore u ss → AllBefore u ts → AllBefore u (ss ++ ts)
AllBefore-append u [] ts a b = b
AllBefore-append u (s ∷ ss) ts a b = (a.0, AllBefore-append u ss ts a.1 b)

-- A phrase ends after it begins, and its notes start in between.
ring-AllBefore : (fs : List ℕ) (t : ℕ) → (t ≤ (ring fs t).1) × AllBefore (ring fs t).1 (ring fs t).0
unfolding ring
ring-AllBefore [] t = (omega arith, tt)
ring-AllBefore (f ∷ fs) t =
    let r = ring-AllBefore fs (t + 620) in let a = r.0 in (omega arith, (omega arith, r.1))

ring_all-AllBefore :
    (cs : List ℕ) (t : ℕ) → (t ≤ (ring_all cs t).1) × AllBefore (ring_all cs t).1 (ring_all cs t).0
unfolding ring_all
ring_all-AllBefore [] t = (omega arith, tt)
ring_all-AllBefore (c ∷ cs) t =
    let r = ring-AllBefore (phrase c) t in
    let u = (ring (phrase c) t).1 in
    let q = ring_all-AllBefore cs (u + 450) in
    let a = r.0 in
    let b = q.0 in
    (
      omega arith,
      AllBefore-append (ring_all cs (u + 450)).1 (ring (phrase c) t).0 (ring_all cs (u + 450)).0
          (AllBefore-mono u (ring_all cs (u + 450)).1 (ring (phrase c) t).0 (omega arith) r.1) q.1,
    )

strike-AllBefore : (n t : ℕ) → (t ≤ (strike n t).1) × AllBefore (strike n t).1 (strike n t).0
unfolding strike
strike-AllBefore zero t = (omega arith, tt)
strike-AllBefore (suc n) t =
    let r = strike-AllBefore n (t + 1200) in let a = r.0 in (omega arith, (omega arith, r.1))

hour-AllBefore :
    (b : Bool) (hour t : ℕ)
    → (t ≤ (hour_strokes b hour t).1)
      × AllBefore (hour_strokes b hour t).1 (hour_strokes b hour t).0
unfolding hour_strokes
hour-AllBefore false hour t = (omega arith, tt)
hour-AllBefore true hour t =
    let r = strike-AllBefore (strikes hour) (t + 500) in let a = r.0 in (omega arith, r.1)

westminster-AllBefore : (q h : ℕ) → AllBefore (westminster q h).1 (westminster q h).0
unfolding westminster
westminster-AllBefore q h =
    let t = (ring_all (qseq q) 0).1 in
    let r = ring_all-AllBefore (qseq q) 0 in
    let k = hour-AllBefore (q == 0) h t in
    AllBefore-append (hour_strokes (q == 0) h t).1 (ring_all (qseq q) 0).0
      (hour_strokes (q == 0) h t).0
      (AllBefore-mono t (hour_strokes (q == 0) h t).1 (ring_all (qseq q) 0).0 k.0 r.1) k.1

-- Every sound: its strokes have all started when it says that it is over, with 400 ms to spare.
pub play_sound-AllBefore :
    (s : Sound) (q h : ℕ) → AllBefore ((play_sound s q h).1 + 400) (play_sound s q h).0
unfolding play_sound bingbong single_bell gong pips time_pips
play_sound-AllBefore bing q h = (omega arith, tt)
play_sound-AllBefore bong q h = (omega arith, tt)
play_sound-AllBefore bing_bong q h = (omega arith, (omega arith, tt))
play_sound-AllBefore gong_stroke q h = (omega arith, (omega arith, tt))
play_sound-AllBefore pip_tones q h = (omega arith, (omega arith, (omega arith, (omega arith, tt))))
play_sound-AllBefore timesignal q h = (omega arith, (omega arith, (omega arith, tt)))
play_sound-AllBefore westminster_chimes q h =
    AllBefore-mono (westminster q h).1 ((westminster q h).1 + 400) (westminster q h).0 (omega arith)
      (westminster-AllBefore q h)
play_sound-AllBefore silent q h = tt

length-ring : (fs : List ℕ) (t : ℕ) → length (ring fs t).0 ≡ length fs
unfolding ring
length-ring [] t = refl
length-ring (f ∷ fs) t = ap suc (length-ring fs (t + 620))

pub length-strike : (n t : ℕ) → length (strike n t).0 ≡ n
unfolding strike
length-strike zero t = refl
length-strike (suc n) t = ap suc (length-strike n (t + 1200))
