-- ===== src/Pdf/Fit/Within.antt =====
-- A page that is to fit does.
use familyplanner.Prelude.{
  ℕ, zero, suc, ◌*◌, ◌<◌, ◌≤◌, ◌≡◌, ◌⊎◌, inl, inr, refl, arith, true, leb, Bool-cases,
}
use native.Mathlib.Nat.{div-mul-le_self, le_of_mul-le-mul_right, mul-le-mul_right, mul-div_cancel}
use familyplanner.Pdf.Zoom.{Factor}
use familyplanner.Pdf.Fit.{Sheet, or_default, base, scaled, canvas}

-- A length that `b` brings to at most `room` takes at most `z` times the room.
scaled-le :
    (length room : ℕ) (b z : Factor)
    → 0 < b.den
    → length * b.num ≤ room * b.den
    → scaled length b z * z.den ≤ room * z.num
unfolding scaled
scaled-le length room b z h l =
    let q = div-mul-le_self (length * b.num * z.num) (b.den * z.den) in
    let m = mul-le-mul_right z.num l in
    let c : scaled length b z * z.den * b.den ≤ room * z.num * b.den = omega (arith, q, m) in
    le_of_mul-le-mul_right c h

abbrev pub unscaled : Factor
unscaled = record { num = 1; den = 1 }

-- A length that `b` brings to `room` exactly fills it at a zoom of 1.
scaled-fills :
    (length room : ℕ) (b : Factor)
    → 0 < b.den
    → length * b.num ≡ room * b.den
    → scaled length b unscaled ≡ room
unfolding scaled
scaled-fills length room b h l =
    let e : length * b.num * 1 ≡ room * b.den = omega (arith, l) in
    let f : b.den * 1 ≡ b.den = omega arith in rw (e, f) (mul-div_cancel room h)

-- What the scale does to a page: it takes no more than the room in either direction, and in one it
-- takes all of it.
record IsFitting (cw ch : ℕ) (p : Sheet) (b : Factor) : Type 0 where
  positive : 0 < b.den
  width_fits : p.width * b.num ≤ cw * b.den
  height_fits : p.height * b.num ≤ ch * b.den
  one_fills : (p.width * b.num ≡ cw * b.den) ⊎ (p.height * b.num ≡ ch * b.den)

base-IsFitting :
    (cw ch : ℕ) (p : Sheet) → 0 < p.width → 0 < p.height → IsFitting cw ch p (base true cw ch p)
unfolding base
base-IsFitting cw ch p w h = elim (Bool-cases (leb (cw * p.height) (ch * p.width))) [
  | inl e ↦ rw e (record {
    positive = w;
    width_fits = omega arith;
    height_fits = ground (arith, e);
    one_fills = inl (omega arith);
  })
  | inr e ↦ rw e (record {
    positive = h;
    width_fits = ground (arith, e);
    height_fits = omega arith;
    one_fills = inr (omega arith);
  })
]

or_default_lem : (d n : ℕ) → 0 < n → or_default d n ≡ n
unfolding or_default
or_default_lem d zero h = elim h [ ]
or_default_lem d (suc n) h = refl

one-fills :
    (cw ch : ℕ) (p : Sheet) (b : Factor)
    → IsFitting cw ch p b
    → (scaled p.width b unscaled ≡ cw) ⊎ (scaled p.height b unscaled ≡ ch)
one-fills cw ch p b v = elim v.one_fills [
  | inl e ↦ inl (scaled-fills p.width cw b v.positive e)
  | inr e ↦ inr (scaled-fills p.height ch b v.positive e)
]

-- A page that is to fit takes, at every zoom, at most the zoom's multiple of the widget's width and of its
-- height; and at a zoom of 1 it takes the whole width or the whole height, so that it is not smaller
-- than it need be.
pub page_fits :
    (cw ch : ℕ) (z : Factor) (p : Sheet)
    → 0 < cw
    → 0 < ch
    → 0 < p.width
    → 0 < p.height
    → ((canvas true cw ch z p).width * z.den ≤ cw * z.num)
      × ((canvas true cw ch z p).height * z.den ≤ ch * z.num)
      × (((canvas true cw ch unscaled p).width ≡ cw) ⊎ ((canvas true cw ch unscaled p).height ≡ ch))
unfolding canvas
page_fits cw ch z p c d w h =
    let b = base true cw ch p in
    let v = base-IsFitting cw ch p w h in
    rw (or_default_lem 800 cw c, or_default_lem 600 ch d)
      (
        scaled-le p.width cw b z v.positive v.width_fits,
        scaled-le p.height ch b z v.positive v.height_fits,
        one-fills cw ch p b v,
      )
