-- ===== src/ClockFace/Panel/Texts.antt =====
-- The panel's texts about the sun, read back.
use familyplanner.Prelude.{
  ℕ, ◌+◌, ◌-◌, ◌*◌, ◌/◌, ◌%◌, ◌<◌, ◌≤◌, ◌≡◌, refl, sym, ◌∙◌, ap, false, Option, none, some, [], ◌∷◌,
  ◌++◌, if◌then◌else◌, ltb, ◌==◌, arith, Bool-cases, inl, inr,
}
use mathlib.Core.List.{append-nil, append_assoc}
use familyplanner.Kiosk.Countdown.{Text, pad as kiosk_pad}
use familyplanner.Kiosk.Countdown.Digits.{decimal, read, read-decimal, is_digit}
use familyplanner.Kiosk.Countdown.Laws.{
  ◌>>=◌, read_unit, read_unit-pad, read-pad, read-unit_char, skip_space,
}
use familyplanner.ClockFace.Panel.{
  pad, hhmm, dur, Part, until_sunrise, until_sunset, night, sun_part,
}

pad_same : (n : ℕ) → pad n ≡ kiosk_pad n
unfolding pad kiosk_pad
pad_same n = refl

-- The minutes of a text such as `07:05`.
pub read_hhmm : Text → Option ℕ
read_hhmm t = do (h, t₁) ← read_unit b':' t; (let (m, t₂) = read 0 t₁ in some (h * 60 + m))

read_end : (n : ℕ) → read n [] ≡ (n, [])
unfolding read
read_end n = refl

read-last : (n : ℕ) → read 0 (kiosk_pad n) ≡ (n, [])
read-last n =
    ap (read 0) (sym (append-nil (kiosk_pad n))) ∙ read-pad n [] ∙ read-decimal n [] ∙ read_end n

-- The time of a sunrise or a sunset, read back.
pub read-hhmm : (minutes : ℕ) → read_hhmm (hhmm minutes) ≡ some minutes
unfolding read_hhmm hhmm
read-hhmm minutes =
    let h = minutes / 60 in
    let m = minutes % 60 in
    rw (pad_same h, pad_same m)
      (rw (read_unit-pad b':' h (kiosk_pad m) refl, read-last m) (ap some (omega arith)))

finish_dur : ℕ → ℕ × Text → Option ℕ
finish_dur h (n, []) = none
finish_dur h (n, c ∷ t) = if c == b'm' then some (h * 60 + n) else none

hours_then : ℕ × Text → Option ℕ
hours_then (n, []) = none
hours_then (n, c ∷ t) =
    if c == b'u'
    then (do t₁ ← skip_space t; finish_dur n (read 0 t₁))
    else if c == b'm'
    then some n
    else none

-- The minutes of a text such as `2u 5m` or `5m`.
pub read_dur : Text → Option ℕ
read_dur t = hours_then (read 0 t)

read-number :
    (c n : ℕ) (rest : Text) → is_digit c ≡ false → read 0 (decimal n ++ (c ∷ rest)) ≡ (n, c ∷ rest)
read-number c n rest h = read-decimal n (c ∷ rest) ∙ read-unit_char c n rest h

pub read_dur-dur : (minutes : ℕ) → read_dur (dur minutes) ≡ some minutes
unfolding read_dur dur hours_then finish_dur skip_space
read_dur-dur minutes = elim (Bool-cases (ltb 0 (minutes / 60))) [
  | inl e ↦
      rw (e, append_assoc)
        (rw (read-number b'u' (minutes / 60) (b' ' ∷ (decimal (minutes % 60) ++ (b'm' ∷ []))) refl)
          (rw (read-number b'm' (minutes % 60) [] refl) (ap some (omega arith))))
  | inr e ↦ rw e (rw (read-number b'm' (minutes % 60) [] refl) (ap some (ground arith)))
]

-- What the panel says at the minute `now` of a day with both sun times.
pub data Says (now rise set : ℕ) : Part → Type 0 where
  before_sunrise :
      (t : Text) (n : ℕ)
      → read_dur t ≡ some n
      → 0 < n
      → now + n ≡ rise
      → Says now rise set (until_sunrise t)
  by_day :
      (t : Text) (n : ℕ)
      → read_dur t ≡ some n
      → 0 < n
      → rise ≤ now
      → now + n ≡ set
      → Says now rise set (until_sunset t)
  after_sunset : rise ≤ now → set ≤ now → Says now rise set night

-- Before sunrise the panel's text, read back, is the number of minutes that are left until sunrise;
-- from then until sunset it is the number of minutes until sunset; and after both it says night.
pub sun_part-Says : (now rise set : ℕ) → Says now rise set (sun_part now rise set)
unfolding sun_part
sun_part-Says now rise set = elim (Bool-cases (ltb now rise)) [
  | inl e ↦ rw e (
      before_sunrise (dur (rise - now)) (rise - now) (read_dur-dur (rise - now)) (ground arith)
        (ground arith))
  | inr e ↦ rw e (elim (Bool-cases (ltb now set)) [
    | inl f ↦ rw f (
        by_day (dur (set - now)) (set - now) (read_dur-dur (set - now)) (ground arith)
          (ground arith) (ground arith))
    | inr f ↦ rw f (after_sunset (ground arith) (ground arith))
  ])
]
