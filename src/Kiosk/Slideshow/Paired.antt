-- ===== src/Kiosk/Slideshow/Paired.antt =====
-- What a step of a slideshow shows: a photo of the album, with the caption of that photo.
use mathlib.Core.List.{Mem, mem-cons, mem-cons_self, mem-cons_of_mem, not-mem-nil}
use mathlib.Core.List.Perm
use mathlib.Core.Option.{some-injective}
use mathlib.Core.Logic.Or
use native.Mathlib.Bridge.{le_prop}
use Prim.Native.String.{String}
use familyplanner.Prelude.{
  ℕ, zero, suc, ◌+◌, ◌-◌, ◌<◌, ◌≤◌, ◌≡◌, refl, sym, subst, some, List, [], ◌∷◌, arith, length,
  get_elem?, get_elem?_of_lt, leb, ℤ, pos, inl, inr, Bool-cases, pos_part, ltb_ℤ,
}
use familyplanner.Kiosk.Slideshow.{
  arrive, indices_from, indices, Show, show_at, step, display, caption_at,
}
use familyplanner.Kiosk.Slideshow.Order.{IsValid, fresh-IsValid, moved-IsValid}

-- Photo `shown` of the album is in the image, and its caption is beside it.
pub record IsPaired (s : Show) : Type 0 where
  pub shown : ℕ
  pub photo : String
  pub at_shown : s.at ≡ some shown
  pub in_album : get_elem? s.urls shown ≡ some photo
  pub in_image : s.src ≡ some photo
  pub beside : s.caption ≡ caption_at s.caps shown

mem-indices_from_lt :
    (k a : ℕ) (xs : List String) → Mem a (indices_from k xs) → a + 1 ≤ k + length xs
unfolding indices_from
mem-indices_from_lt k a [] m = absurd (not-mem-nil m)
mem-indices_from_lt k a (x ∷ xs) m =
    Or.elim le_prop (mem-cons.0 m) (λ e. omega arith)
      (λ r. omega (arith, mem-indices_from_lt (k + 1) a xs r))

mem_of_get_elem? : (xs : List ℕ) (k a : ℕ) → get_elem? xs k ≡ some a → Mem a xs
mem_of_get_elem? [] k a e = cc
mem_of_get_elem? (x ∷ xs) zero a e =
    subst (λ b. Mem b (x ∷ xs)) (some-injective x a e) mem-cons_self
mem_of_get_elem? (x ∷ xs) (suc k) a e = mem-cons_of_mem x (mem_of_get_elem? xs k a e)

in_album :
    (s : Show) (i : ℕ) → IsValid s → get_elem? s.order s.position ≡ some i → i < length s.urls
unfolding indices
in_album s i v e = omega (
  arith,
  mem-indices_from_lt 0 i s.urls
      ((Perm.mem_iff v.complete).0 (mem_of_get_elem? s.order s.position i e)),
)

show_at-IsPaired : (s : Show) → IsValid s → IsPaired (show_at s)
unfolding show_at display
show_at-IsPaired s v =
    let (i, e) = get_elem?_of_lt s.order s.position v.within in
    let (x, f) = get_elem?_of_lt s.urls i (in_album s i v e) in
    subst (λ o. IsPaired (display o s)) (sym e)
      (record { shown = i; photo = x; at_shown = refl; in_album = f; in_image = f; beside = refl })

arrive-IsPaired : (p : ℤ) (s : Show) (seed : ℕ) → IsValid s → IsPaired (arrive p s seed).0
unfolding arrive
arrive-IsPaired p s seed v = elim (Bool-cases (leb (length s.order) (pos_part p))) [
  | inl past ↦ rw past (show_at-IsPaired _ (fresh-IsValid s seed v.album))
  | inr short ↦ rw short (elim (Bool-cases (ltb_ℤ p (pos 0))) [
    | inl before ↦
        rw before (show_at-IsPaired _ (moved-IsValid s (length s.order - 1) v (omega arith)))
    | inr after ↦ rw after (show_at-IsPaired _ (moved-IsValid s (pos_part p) v (ground arith)))
  ])
]

-- A step of an album in mid-show always shows one of its photos, and beside it the caption of that
-- photo and of no other.
pub step-IsPaired : (dir : ℤ) (s : Show) (seed : ℕ) → IsValid s → IsPaired (step dir s seed).0
unfolding step
step-IsPaired dir s seed v = arrive-IsPaired _ s seed v
