-- ===== src/Kiosk/Slideshow.antt =====
-- The photo slideshow of kiosk.js: `fpShuffle` and the step function that `startSlideshows` puts on
-- an album's image. The script's numbers are doubles: its products are exact for albums of fewer
-- than three million photos, so they are natural numbers here.
mod Shuffle
mod Order
mod Pass
mod Paired
mod Timer
mod Tests
use Prim.Native.String.{String}
use familyplanner.Prelude.{
  ℕ, zero, suc, ◌+◌, ◌-◌, ◌*◌, ◌%◌, Bool, true, false, Option, none, some, List, [], ◌∷◌, ltb, leb,
  if◌then◌else◌, length, get_elem?, set, ℤ, pos, negsuc, ◌+ℤ◌, ltb_ℤ, pos_part,
}

exchange {ℓ} : {A : Type ℓ} → Option A → Option A → List A → ℕ → ℕ → List A
exchange none y? xs i j = xs
exchange (some x) none xs i j = xs
exchange (some x) (some y) xs i j = set (set xs i y) j x

-- `t = a[i]; a[i] = a[j]; a[j] = t`; the loop calls it inside the list only.
pub swap {ℓ} : {A : Type ℓ} → List A → ℕ → ℕ → List A
swap xs i j = exchange (get_elem? xs i) (get_elem? xs j) xs i j

-- The loop of `fpShuffle`, from the index `i` down to 1; the seed is a variable of the script.
pub shuffle_from {ℓ} : {A : Type ℓ} → ℕ → ℕ → List A → List A × ℕ
shuffle_from zero seed a = (a, seed)
shuffle_from (suc i) seed a =
    let j = (suc i * 2654435761 + seed) % (suc i + 1) in
    shuffle_from i (seed + 1) (swap a (suc i) j)

pub fp_shuffle {ℓ} : {A : Type ℓ} → ℕ → List A → List A × ℕ
fp_shuffle seed a = shuffle_from (length a - 1) seed a

pub indices_from {ℓ} : {A : Type ℓ} → ℕ → List A → List ℕ
indices_from k [] = []
indices_from k (x ∷ xs) = k ∷ indices_from (k + 1) xs

-- `idxs`
pub indices {ℓ} : {A : Type ℓ} → List A → List ℕ
indices urls = indices_from 0 urls

-- The image with the closure's variables. `at` is the photo that the last step showed, none before
-- the first step (the page then shows the first photo, which the server painted).
pub record Show : Type 0 where
  pub urls : List String
  pub caps : List String
  pub order : List ℕ
  pub position : ℕ  -- `pos`
  pub at : Option ℕ
  pub src : Option String  -- `img.src`, once a step has set it
  pub caption : String

-- `caps[i] || ""`
pub caption_at : List String → ℕ → String
caption_at caps i = elim (get_elem? caps i) [ none ↦ "" | some c ↦ c ]

-- The part of `startSlideshows` for an album of two photos or more; other images get a step that
-- does nothing. The second component is the seed.
pub start : List String → List String → ℕ → Option (Show × ℕ)
start urls caps seed =
    if ltb (length urls) 2
    then none
    else (let (order, seed') = fp_shuffle seed (indices urls) in
        some (
          record {
            urls = urls;
            caps = caps;
            order = order;
            position = 0;
            at = none;
            src = none;
            caption = "";
          },
          seed',
        ))

-- `img.src = urls[i]`, and the caption beside it, for `i = order[pos]`.
pub display : Option ℕ → Show → Show
display none s = s
display (some i) s = record s {
  at = some i;
  src = get_elem? s.urls i;
  caption = caption_at s.caps i;
}

pub show_at : Show → Show
show_at s = display (get_elem? s.order s.position) s

-- The rest of a step once `pos` is `p`: past the end the album is shuffled anew, before the start the
-- last photo comes.
pub arrive : ℤ → Show → ℕ → Show × ℕ
arrive p s seed =
    if leb (length s.order) (pos_part p)
    then (let (order, seed') = fp_shuffle seed (indices s.urls) in
        (show_at (record s { order = order; position = 0 }), seed'))
    else if ltb_ℤ p (pos 0)
    then (show_at (record s { position = length s.order - 1 }), seed)
    else (show_at (record s { position = pos_part p }), seed)

-- `img.__fpStep(dir)`
pub step : ℤ → Show → ℕ → Show × ℕ
step dir s seed = arrive (pos s.position +ℤ (if ltb_ℤ dir (pos 0) then negsuc 0 else pos 1)) s seed
