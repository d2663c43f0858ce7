-- ===== src/Layout/Moves.antt =====
-- A drag from the press to the release: what is sent.
use familyplanner.Prelude.{
  ℕ, ℤ, pos_part, ◌-ℤ◌, zero, suc, ◌+◌, ◌-◌, ◌<◌, ◌≡◌, refl, ◌∙◌, ap, arith, if◌then◌else◌, Bool,
  Option, none, some, List, [], ◌∷◌, ◌++◌, get_elem?, Bool-cases, leb, ◌*◌, inl, inr,
}
use familyplanner.Layout.{
  Child, Drag, Editor, drag_of, press_on, gutter_at, before, press, frac, portion, set_weight,
  resize, frac_at, move_if, move, weights, end_if, end_drag,
}

set_weight_twice :
    (k v w : ℕ) (cs : List Child) → set_weight k w (set_weight k v cs) ≡ set_weight k w cs
unfolding set_weight
set_weight_twice k v w [] = refl
set_weight_twice zero v w (c ∷ cs) = refl
set_weight_twice (suc k) v w (c ∷ cs) = ap (λ t. c ∷ t) (set_weight_twice k v w cs)

set_weight_swap :
    (j k v w : ℕ) (cs : List Child)
    → j < k
    → set_weight j v (set_weight k w cs) ≡ set_weight k w (set_weight j v cs)
unfolding set_weight
set_weight_swap j k v w [] h = refl
set_weight_swap zero zero v w (c ∷ cs) h = elim h [ ]
set_weight_swap (suc j) zero v w (c ∷ cs) h = elim h [ ]
set_weight_swap zero (suc k) v w (c ∷ cs) h = refl
set_weight_swap (suc j) (suc k) v w (c ∷ cs) h =
    ap (λ t. c ∷ t) (set_weight_swap j k v w cs (omega arith))

-- Where the pointer was before makes no difference to the weights.
resize_again :
    (f : Option (ℕ × ℕ)) (n m : ℕ) (d : Drag) (cs : List Child)
    → d.prev < d.next
    → resize (some (n, m)) d (resize f d cs) ≡ resize (some (n, m)) d cs
unfolding resize
resize_again none n m d cs h = refl
resize_again (some (a, b)) n m d cs h =
    let p = portion n m d.sum_w in
    let q = portion (m - n) m d.sum_w in
    let p₁ = portion a b d.sum_w in
    let q₁ = portion (b - a) b d.sum_w in
    ap (set_weight d.next q) (
      set_weight_swap d.prev d.next p q₁ (set_weight d.prev p₁ cs) h
      ∙ ap (set_weight d.next q₁) (set_weight_twice d.prev p₁ p cs))
    ∙ set_weight_twice d.next q₁ q (set_weight d.prev p cs)

frac-some : (at start : ℤ) (px : ℕ) → 0 < px → (n : ℕ) × (m : ℕ) × (frac at start px ≡ some (n, m))
unfolding frac
frac-some at start zero h = elim h [ ]
frac-some at start (suc px) h =
    elim (Bool-cases (leb (100 * (pos_part (at -ℤ start))) (8 * suc px))) [
      | inl e ↦ rw e (8, 100, refl)
      | inr e ↦ rw e (elim (Bool-cases (leb (92 * suc px) (100 * (pos_part (at -ℤ start))))) [
        | inl f ↦ rw f (92, 100, refl)
        | inr f ↦ rw f (pos_part (at -ℤ start), suc px, refl)
      ])
    ]

-- The pointer moves along a list of positions.
pub moves : List (ℤ × ℤ) → Editor → Editor
moves [] e = e
moves ((x, y) ∷ ps) e = moves ps (move x y e)

abbrev held : Drag → List Child → Editor → Editor
held d cs e = record e { children = cs; drag = some d }

moves-held :
    (ps : List (ℤ × ℤ)) (x y : ℤ) (d : Drag) (cs : List Child) (e : Editor)
    → d.prev < d.next
    → 0 < d.sum_px
    → moves (ps ++ ((x, y) ∷ [])) (held d cs e) ≡ held d (resize (frac_at x y d) d cs) e
unfolding moves move move_if
moves-held [] x y d cs e h l = refl
moves-held ((x₁, y₁) ∷ ps) x y d cs e h l =
    let f = frac-some (if d.horizontal then x else y) d.start_pos d.sum_px l in
    moves-held ps x y d (resize (frac_at x₁ y₁ d) d cs) e h l
    ∙ ap (λ t. held d t e) (rw f.2 (resize_again (frac_at x₁ y₁ d) f.0 f.1 d cs h))

press-held :
    (k : ℕ) (e : Editor) (row : Bool) (p n : Child)
    → gutter_at (get_elem? e.children (suc k)) ≡ some row
    → before (suc k) e.children ≡ some p
    → get_elem? e.children (suc k + 1) ≡ some n
    → press (suc k) e ≡ held (drag_of (suc k) row p n) e.children e
unfolding press press_on
press-held k e row p n g b a = rw (g, b, a) refl

-- However the pointer wandered between the press on a gutter and the release, one message is sent: the
-- weights that one move from the press to the pointer's last place gives; and the drag is over.
pub drag_sends :
    (k : ℕ) (e : Editor) (row : Bool) (p n : Child) (ps : List (ℤ × ℤ)) (x y : ℤ)
    → gutter_at (get_elem? e.children (suc k)) ≡ some row
    → before (suc k) e.children ≡ some p
    → get_elem? e.children (suc k + 1) ≡ some n
    → 0 < (drag_of (suc k) row p n).sum_px
    → let d = drag_of (suc k) row p n in
      let f = end_drag (moves (ps ++ ((x, y) ∷ [])) (press (suc k) e)) in
      (f.drag ≡ none)
      × (f.posts ≡ (e.path, weights (resize (frac_at x y d) d e.children)) ∷ e.posts)
unfolding end_drag end_if drag_of
drag_sends k e row p n ps x y g b a l =
    let d = drag_of (suc k) row p n in
    rw (press-held k e row p n g b a)
      (rw (moves-held ps x y d e.children e (omega arith) l) (refl, refl))
