-- ===== src/Kiosk/Slideshow/Tests.antt =====
-- Albums of two and four photos.
use Prim.Native.String.{String}
use familyplanner.Prelude.{ℕ, ◌≡◌, refl, List, [], ◌∷◌, map, some, none, Perm, arith}
use familyplanner.Kiosk.Slideshow.{
  exchange, swap, shuffle_from, fp_shuffle, indices_from, indices, Show, start,
}
use familyplanner.Kiosk.Slideshow.Shuffle.{fp_shuffle-perm}
use familyplanner.Kiosk.Slideshow.Order.{IsValid}
use familyplanner.Kiosk.Slideshow.Pass.{forward, forward-perm}

abbrev four : List String
four = "a" ∷ "b" ∷ "c" ∷ "d" ∷ []

shuffled : fp_shuffle 1 (indices four) ≡ (2 ∷ 3 ∷ 1 ∷ 0 ∷ [], 4)
unfolding fp_shuffle shuffle_from swap exchange indices indices_from
shuffled = refl

abbrev last : Show
last = record {
  urls = four;
  caps = "x" ∷ [];
  order = (fp_shuffle 1 (indices four)).0;
  position = 3;
  at = some 0;
  src = some "a";
  caption = "";
}

last-IsValid : IsValid last
unfolding shuffled
last-IsValid = record {
  complete = (fp_shuffle-perm 1 (indices four)).0;
  counted = refl;
  album = omega arith;
  within = omega arith;
}

forward-perm_example :
    (photos : List ℕ) × (forward 4 last 4 ≡ map some photos) × Perm photos (indices four)
unfolding shuffled
forward-perm_example = forward-perm last 4 last-IsValid refl

-- An album of two photos.
abbrev two : List String
two = "a" ∷ "b" ∷ []

abbrev first : Show
first = record {
  urls = two;
  caps = [];
  order = 1 ∷ 0 ∷ [];
  position = 0;
  at = none;
  src = none;
  caption = "";
}

two_started : start two [] 1 ≡ some (first, 2)
unfolding start shuffled
two_started = refl
