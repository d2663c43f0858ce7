-- ===== src/Server/Tree/Valid.antt =====
-- Which trees are well formed.
use familyplanner.Prelude.{
  ℕ, zero, suc, ◌≤◌, ◌≡◌, refl, sym, ap, subst, Bool, true, false, Option, none, some, List, [],
  ◌∷◌, ℤ, pos, negsuc, ltb, ◌↔◌, arith,
}
use familyplanner.Server.Tree.{
  Node, leaf, split, both, neither, Children, nil, child, Problem, is_direction, count, first_of,
  split_problem, validate, validate_all, nth, set_nth, child_at, set_child, at, put,
}
use familyplanner.Server.Tree.Lens.{at-step, put-child}

-- Every node is one of a pane and a split, and every split has a direction and at least two children.
abbrev mutual
  pub IsWell : Node → Type 0
  IsWell (leaf l) = Unit
  IsWell (split d cs) = (is_direction d ≡ true) × ((2 ≤ count cs) × AllWell cs)
  IsWell (both l d cs) = ⊥
  IsWell neither = ⊥

  pub AllWell : Children → Type 0
  AllWell nil = Unit
  AllWell (child w n cs) = IsWell n × AllWell cs

split_problem-none :
    (d few : Bool) (rest : Option Problem)
    → (split_problem d few rest ≡ none) ↔ ((d ≡ true) × ((few ≡ false) × (rest ≡ none)))
unfolding split_problem
split_problem-none false few rest = (λ h. absurd (cc h), λ h. absurd (cc (h.0)))
split_problem-none true true rest = (λ h. absurd (cc h), λ h. absurd (cc (h.1.0)))
split_problem-none true false rest = (λ h. (refl, (refl, h)), λ h. h.1.1)

first_of-none : (e f : Option Problem) → (first_of e f ≡ none) ↔ ((e ≡ none) × (f ≡ none))
first_of-none none f = (λ h. (refl, h), λ h. h.1)
first_of-none (some e) f = (λ h. absurd (cc h), λ h. absurd (cc (h.0)))

mutual
  unfolding validate

  sound : (n : Node) → validate n ≡ none → IsWell n
  sound (leaf l) h = tt
  sound (split d cs) h =
      let s = (split_problem-none (is_direction d) (ltb (count cs) 2) (validate_all cs)).0 h in
      (s.0, (ground (arith, s.1.0), all_sound cs s.1.1))
  sound (both l d cs) h = cc h
  sound neither h = cc h

  all_sound : (cs : Children) → validate_all cs ≡ none → AllWell cs
  all_sound nil h = tt
  all_sound (child w n cs) h =
      let s = (first_of-none (validate n) (validate_all cs)).0 h in (sound n s.0, all_sound cs s.1)

mutual
  unfolding validate

  complete : (n : Node) → IsWell n → validate n ≡ none
  complete (leaf l) h = refl
  complete (split d cs) h =
      (split_problem-none (is_direction d) (ltb (count cs) 2) (validate_all cs)).1
        (h.0, (ground (arith, h.1.0), all_complete cs h.1.1))
  complete (both l d cs) h = absurd h
  complete neither h = absurd h

  all_complete : (cs : Children) → AllWell cs → validate_all cs ≡ none
  all_complete nil h = refl
  all_complete (child w n cs) h =
      (first_of-none (validate n) (validate_all cs)).1 (complete n h.0, all_complete cs h.1)

-- `Validate` finds no problem in exactly the trees whose every node is either a pane or a split, and whose
-- every split is a row or a column of at least two children.
pub validate-IsWell : (n : Node) → (validate n ≡ none) ↔ IsWell n
validate-IsWell n = (sound n, complete n)

nth-IsWell : (k : ℕ) (c : Node) (cs : Children) → AllWell cs → nth k cs ≡ some c → IsWell c
unfolding nth
nth-IsWell k c nil h e = cc e
nth-IsWell zero c (child w n cs) h e = let q : n ≡ c = cc e in subst IsWell q h.0
nth-IsWell (suc k) c (child w n cs) h e = nth-IsWell k c cs h.1 e

set_nth-AllWell :
    (k : ℕ) (m : Node) (cs : Children)
    → IsWell m
    → AllWell cs
    → AllWell (set_nth k m cs) × (count (set_nth k m cs) ≡ count cs)
unfolding set_nth
set_nth-AllWell k m nil g h = (tt, refl)
set_nth-AllWell zero m (child w n cs) g h = ((g, h.1), refl)
set_nth-AllWell (suc k) m (child w n cs) g h =
    let r = set_nth-AllWell k m cs g h.1 in ((h.0, r.0), ap suc r.1)

pub child_at-IsWell : (i : ℤ) (c n : Node) → IsWell n → child_at i n ≡ some c → IsWell c
unfolding child_at
child_at-IsWell (pos k) c (split d cs) h e = nth-IsWell k c cs h.1.1 e
child_at-IsWell (pos k) c (both l d cs) h e = absurd h
child_at-IsWell (pos k) c (leaf l) h e = cc e
child_at-IsWell (pos k) c neither h e = cc e
child_at-IsWell (negsuc k) c n h e = cc e

set_child-IsWell : (i : ℤ) (m n : Node) → IsWell m → IsWell n → IsWell (set_child i m n)
unfolding set_child
set_child-IsWell (pos k) m (split d cs) g h =
    let r = set_nth-AllWell k m cs g h.1.1 in (h.0, (subst (λ j. 2 ≤ j) (sym r.1) h.1.0, r.0))
set_child-IsWell (pos k) m (both l d cs) g h = absurd h
set_child-IsWell (pos k) m (leaf l) g h = h
set_child-IsWell (pos k) m neither g h = h
set_child-IsWell (negsuc k) m n g h = h

pub at-IsWell : (p : List ℤ) (t n : Node) → IsWell n → at p n ≡ some t → IsWell t
unfolding at
at-IsWell [] t n h e = let q : n ≡ t = cc e in subst IsWell q h
at-IsWell (i ∷ p) t n h e =
    let (c, (f, u)) = at-step i p n t e in at-IsWell p t c (child_at-IsWell i c n h f) u

pub put-IsWell :
    (p : List ℤ) (m t n : Node) → IsWell m → IsWell n → at p n ≡ some t → IsWell (put p m n)
unfolding put
put-IsWell [] m t n g h e = g
put-IsWell (i ∷ p) m t n g h e =
    let (c, (f, u)) = at-step i p n t e in
    subst IsWell (sym (put-child i p m c n f))
      (set_child-IsWell i (put p m c) n (put-IsWell p m t c g (child_at-IsWell i c n h f) u) h)
