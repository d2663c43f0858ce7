-- ===== src/Kiosk/Slideshow/Order.antt =====
-- The invariant of a slideshow: its order is a rearrangement of the album, its position inside it.
use mathlib.Core.List.{Mem, Nodup, Nodup-cons, mem-cons, not-mem-nil, Nodup-nil}
use mathlib.Core.Logic.Or
use native.Mathlib.Bridge.{le_prop}
use Prim.Native.String.{String}
use familyplanner.Prelude.{
  ℕ, zero, suc, ◌+◌, ◌-◌, ◌<◌, ◌≤◌, ◌≡◌, refl, ◌∙◌, ap, Option, none, some, List, [], ◌∷◌, Perm,
  arith, length, get_elem?, set, length-set, leb, ℤ, pos, inl, inr, Bool-cases, pos_part, ltb_ℤ,
}
use familyplanner.Kiosk.Slideshow.{
  arrive, exchange, swap, shuffle_from, fp_shuffle, indices_from, indices, Show, start, show_at,
  step, display,
}
use familyplanner.Kiosk.Slideshow.Shuffle.{fp_shuffle-perm}

module _ {ℓ} {A : Type ℓ} where
  length-exchange :
      (x? y? : Option A) (xs : List A) (i j : ℕ) → length (exchange x? y? xs i j) ≡ length xs
  unfolding exchange
  length-exchange none y? xs i j = refl
  length-exchange (some x) none xs i j = refl
  length-exchange (some x) (some y) xs i j = length-set (set xs i y) j x ∙ length-set xs i y

  length-shuffle_from : (i seed : ℕ) (xs : List A) → length (shuffle_from i seed xs).0 ≡ length xs
  unfolding shuffle_from swap
  length-shuffle_from zero seed xs = refl
  length-shuffle_from (suc i) seed xs =
      length-shuffle_from i (seed + 1) _ ∙ length-exchange _ _ xs (suc i) _

  length-indices_from : (k : ℕ) (xs : List A) → length (indices_from k xs) ≡ length xs
  unfolding indices_from
  length-indices_from k [] = refl
  length-indices_from k (x ∷ xs) = ap suc (length-indices_from (k + 1) xs)

  mem-indices_from : (k a : ℕ) (xs : List A) → Mem a (indices_from k xs) → k ≤ a
  unfolding indices_from
  mem-indices_from k a [] m = absurd (not-mem-nil m)
  mem-indices_from k a (x ∷ xs) m =
      Or.elim le_prop (mem-cons.0 m) (λ e. omega arith)
        (λ r. omega (arith, mem-indices_from (k + 1) a xs r))

  pub indices_from-Nodup : (k : ℕ) (xs : List A) → Nodup (indices_from k xs)
  unfolding indices_from
  indices_from-Nodup k [] = Nodup-nil
  indices_from-Nodup k (x ∷ xs) = Nodup-cons.1 (
    (λ m. absurd (omega (arith, mem-indices_from (k + 1) k xs m))),
    indices_from-Nodup (k + 1) xs,
  )

pub length-order :
    (seed : ℕ) (urls : List String) → length (fp_shuffle seed (indices urls)).0 ≡ length urls
unfolding fp_shuffle indices
length-order seed urls =
    length-shuffle_from _ seed (indices_from 0 urls) ∙ length-indices_from 0 urls

-- An album in mid-show: its order is a rearrangement of all its photos.
pub record IsValid (s : Show) : Type 0 where
  pub complete : Perm s.order (indices s.urls)
  pub counted : length s.order ≡ length s.urls
  pub album : 2 ≤ length s.urls
  pub within : s.position < length s.order

display-IsValid : (i? : Option ℕ) {s : Show} → IsValid s → IsValid (display i? s)
unfolding display
display-IsValid none v = v
display-IsValid (some i) v = record {
  complete = v.complete;
  counted = v.counted;
  album = v.album;
  within = v.within;
}

show_at-IsValid : {s : Show} → IsValid s → IsValid (show_at s)
unfolding show_at
show_at-IsValid {s} v = display-IsValid (get_elem? s.order s.position) v

pub fresh-IsValid :
    (s : Show) (seed : ℕ)
    → 2 ≤ length s.urls
    → IsValid (record s { order = (fp_shuffle seed (indices s.urls)).0; position = 0 })
fresh-IsValid s seed h = record {
  complete = (fp_shuffle-perm seed (indices s.urls)).0;
  counted = length-order seed s.urls;
  album = h;
  within = omega (arith, length-order seed s.urls);
}

pub moved-IsValid :
    (s : Show) (k : ℕ) → IsValid s → k < length s.order → IsValid (record s { position = k })
moved-IsValid s k v h = record {
  complete = v.complete;
  counted = v.counted;
  album = v.album;
  within = h;
}

arrive-IsValid : (p : ℤ) (s : Show) (seed : ℕ) → IsValid s → IsValid (arrive p s seed).0
unfolding arrive
arrive-IsValid p s seed v = elim (Bool-cases (leb (length s.order) (pos_part p))) [
  | inl past ↦ rw past (show_at-IsValid (fresh-IsValid s seed v.album))
  | inr short ↦ rw short (elim (Bool-cases (ltb_ℤ p (pos 0))) [
    | inl before ↦
        rw before (show_at-IsValid (moved-IsValid s (length s.order - 1) v (omega arith)))
    | inr after ↦ rw after (show_at-IsValid (moved-IsValid s (pos_part p) v (ground arith)))
  ])
]

-- Every step, forward or back, keeps the order a rearrangement of the whole album with the position
-- inside it.
pub step-IsValid : (dir : ℤ) (s : Show) (seed : ℕ) → IsValid s → IsValid (step dir s seed).0
unfolding step
step-IsValid dir s seed v = arrive-IsValid _ s seed v

pub started-eq :
    (urls caps : List String) (seed seed' : ℕ) (s : Show)
    → start urls caps seed ≡ some (s, seed')
    → (2 ≤ length urls)
      × (s ≡ record {
        urls = urls;
        caps = caps;
        order = (fp_shuffle seed (indices urls)).0;
        position = 0;
        at = none;
        src = none;
        caption = "";
      })
unfolding start
started-eq urls caps seed seed' s e = ground arith

pub start-IsValid :
    (urls caps : List String) (seed seed' : ℕ) (s : Show)
    → start urls caps seed ≡ some (s, seed')
    → IsValid s
start-IsValid urls caps seed seed' s e =
    let (two, same) = started-eq urls caps seed seed' s e in rw same (fresh-IsValid s₀ seed two)
  where
    s₀ : Show
    s₀ = record {
      urls = urls;
      caps = caps;
      order = [];
      position = 0;
      at = none;
      src = none;
      caption = "";
    }
