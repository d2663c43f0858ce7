-- ===== src/Kiosk/Slideshow/Pass.antt =====
-- What the slideshow shows over a whole pass through its album.
use mathlib.Core.List.{Mem, Nodup, Nodup-cons, mem-cons, mem-cons_self, append_assoc}
use mathlib.Core.List.Perm
use mathlib.Core.Logic.Or
use mathlib.Core.List.{Mem-prop}
use mathlib.Core.HLevel.{⊥_prop}
use Prim.Native.String.{String}
use familyplanner.Prelude.{
  get_elem?-middle, ℕ, zero, suc, ◌+◌, ◌≡◌, ◌≢◌, refl, sym, ◌∙◌, ap, Option, some, List, [], ◌∷◌,
  ◌++◌, map, Perm, arith, length, get_elem?, length-append, pos, lt-length_of_get_elem?,
}
use familyplanner.Kiosk.Slideshow.{
  arrive, fp_shuffle, indices_from, indices, Show, start, show_at, step, caption_at, display,
}
use familyplanner.Kiosk.Slideshow.Shuffle.{fp_shuffle-perm}
use familyplanner.Kiosk.Slideshow.Order.{
  IsValid, length-order, started-eq, indices_from-Nodup, start-IsValid,
}

-- The photos that `k` steps forward show, one after another.
pub forward : ℕ → Show → ℕ → List (Option ℕ)
forward zero s seed = []
forward (suc k) s seed = let (s', seed') = step (pos 1) s seed in s'.at ∷ forward k s' seed'

abbrev shown : Show → ℕ → ℕ → Show
shown s k i = record s {
  position = k;
  at = some i;
  src = get_elem? s.urls i;
  caption = caption_at s.caps i;
}

step-within :
    (s : Show) (seed i : ℕ)
    → get_elem? s.order (s.position + 1) ≡ some i
    → step (pos 1) s seed ≡ (shown s (s.position + 1) i, seed)
unfolding step arrive show_at display
step-within s seed i e = ground (arith, lt-length_of_get_elem? s.order (s.position + 1) {x = i})

-- From the end of `xs` the steps show `ys` in turn.
forward-rest :
    (xs ys : List ℕ) (s : Show) (seed : ℕ)
    → s.order ≡ xs ++ ys
    → s.position + 1 ≡ length xs
    → forward (length ys) s seed ≡ map some ys
unfolding forward
forward-rest xs [] s seed e p = refl
forward-rest xs (y ∷ ys) s seed e p =
    let here : get_elem? s.order (s.position + 1) ≡ some y = rw (e, p) (get_elem?-middle xs ys y) in
    rw (step-within s seed y here) (
      ap (some y ∷◌) (
        forward-rest (xs ++ (y ∷ [])) ys (shown s (s.position + 1) y) seed
          (e ∙ sym (append_assoc xs (y ∷ []) ys)) (omega (arith, length-append xs (y ∷ [])))))

step-wrap :
    (s : Show) (seed y : ℕ)
    → s.position + 1 ≡ length s.order
    → get_elem? (fp_shuffle seed (indices s.urls)).0 0 ≡ some y
    → step (pos 1) s seed ≡ (
      shown (record s { order = (fp_shuffle seed (indices s.urls)).0 }) 0 y,
      (fp_shuffle seed (indices s.urls)).1,
    )
unfolding step arrive show_at display
step-wrap s seed y p e = ground arith

pass :
    (o : List ℕ) (s : Show) (seed : ℕ)
    → s.position + 1 ≡ length s.order
    → (fp_shuffle seed (indices s.urls)).0 ≡ o
    → forward (length o) s seed ≡ map some o
unfolding forward
pass [] s seed p e = refl
pass (y ∷ ys) s seed p e =
    let first : get_elem? (fp_shuffle seed (indices s.urls)).0 0 ≡ some y = rw e in
    rw (step-wrap s seed y p first) (
      ap (some y ∷◌) (
        forward-rest (y ∷ []) ys
          (shown (record s { order = (fp_shuffle seed (indices s.urls)).0 }) 0 y)
          (fp_shuffle seed (indices s.urls)).1 e (omega arith)))

-- Once the last photo of an order is on the screen, the next steps, one for each photo of the album,
-- show every photo exactly once.
pub forward-perm :
    (s : Show) (seed : ℕ)
    → IsValid s
    → s.position + 1 ≡ length s.order
    → (photos : List ℕ) × (forward (length s.urls) s seed ≡ map some photos)
      × Perm photos (indices s.urls)
forward-perm s seed v p =
    let o = (fp_shuffle seed (indices s.urls)).0 in
    (
      o,
      rw (← length-order seed s.urls) (pass o s seed p refl),
      (fp_shuffle-perm seed (indices s.urls)).0,
    )

mem-first : (x : String) (urls : List String) → Mem 0 (indices (x ∷ urls))
unfolding indices indices_from
mem-first x urls = mem-cons_self

-- Before the first step the page shows photo 0, which the server painted. Unless the first order
-- happens to begin with it, the first pass shows photo 0 a second time and leaves out the photo `h`
-- that the order begins with.
pub first_pass_repeats :
    (x : String) (urls caps : List String) (seed seed' : ℕ) (s : Show) (h : ℕ) (rest : List ℕ)
    → start (x ∷ urls) caps seed ≡ some (s, seed')
    → s.order ≡ h ∷ rest
    → h ≢ 0
    → (forward (length rest) s seed' ≡ map some rest) × Mem 0 rest × (¬ Mem h (0 ∷ rest))
unfolding indices
first_pass_repeats x urls caps seed seed' s h rest e o ne =
    let (two, same) = started-eq (x ∷ urls) caps seed seed' s e in
    let v = start-IsValid (x ∷ urls) caps seed seed' s e in
    let same_urls : s.urls ≡ x ∷ urls = ap (λ (t : Show). t.urls) same in
    let at_start : s.position ≡ 0 = ap (λ (t : Show). t.position) same in
    let perm : Perm (h ∷ rest) (indices (x ∷ urls)) = rw (← o, ← same_urls) v.complete in
    let nodup : Nodup (h ∷ rest) = Perm.nodup (Perm.symm perm) (indices_from-Nodup 0 (x ∷ urls)) in
    (
      forward-rest (h ∷ []) rest s seed' o (omega arith),
      Or.resolve_left Mem-prop (mem-cons.0 ((Perm.mem_iff perm).1 (mem-first x urls)))
          (λ z. ne (sym z)),
      λ m. Or.elim ⊥_prop (mem-cons.0 m) (λ z. ne z) (λ r. (Nodup-cons.0 nodup).0 r),
    )
