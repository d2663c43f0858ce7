-- ===== src/Server/Tree/Lens.antt =====
-- Reading and writing a node at a path.
use familyplanner.Prelude.{
  ◌≡◌, refl, sym, ap, ◌∙◌, none, some, List, [], ◌∷◌, ℤ, pos, negsuc, ℕ, zero, suc, Option-cases,
  inl, inr,
}
use familyplanner.Server.Tree.{
  Node, leaf, split, both, neither, Children, nil, child, nth, set_nth, child_at, set_child, at,
  put,
}

nth-set_nth :
    (k : ℕ) (m c : Node) (cs : Children) → nth k cs ≡ some c → nth k (set_nth k m cs) ≡ some m
unfolding nth set_nth
nth-set_nth k m c nil h = cc h
nth-set_nth zero m c (child w n cs) h = refl
nth-set_nth (suc k) m c (child w n cs) h = nth-set_nth k m c cs h

set_nth_twice : (k : ℕ) (a b : Node) (cs : Children) → set_nth k a (set_nth k b cs) ≡ set_nth k a cs
unfolding set_nth
set_nth_twice k a b nil = refl
set_nth_twice zero a b (child w n cs) = refl
set_nth_twice (suc k) a b (child w n cs) = ap (child w n) (set_nth_twice k a b cs)

set_nth-nth : (k : ℕ) (c : Node) (cs : Children) → nth k cs ≡ some c → set_nth k c cs ≡ cs
unfolding nth set_nth
set_nth-nth k c nil h = refl
set_nth-nth zero c (child w n cs) h = let e : n ≡ c = cc h in ap (λ m. child w m cs) (sym e)
set_nth-nth (suc k) c (child w n cs) h = ap (child w n) (set_nth-nth k c cs h)

child_at-set_child :
    (i : ℤ) (m c n : Node) → child_at i n ≡ some c → child_at i (set_child i m n) ≡ some m
unfolding child_at set_child
child_at-set_child (pos k) m c (split d cs) h = nth-set_nth k m c cs h
child_at-set_child (pos k) m c (both l d cs) h = nth-set_nth k m c cs h
child_at-set_child (pos k) m c (leaf l) h = cc h
child_at-set_child (pos k) m c neither h = cc h
child_at-set_child (negsuc k) m c n h = cc h

set_child_twice : (i : ℤ) (a b n : Node) → set_child i a (set_child i b n) ≡ set_child i a n
unfolding set_child
set_child_twice (pos k) a b (split d cs) = ap (split d) (set_nth_twice k a b cs)
set_child_twice (pos k) a b (both l d cs) = ap (both l d) (set_nth_twice k a b cs)
set_child_twice (pos k) a b (leaf l) = refl
set_child_twice (pos k) a b neither = refl
set_child_twice (negsuc k) a b n = refl

set_child-child_at : (i : ℤ) (c n : Node) → child_at i n ≡ some c → set_child i c n ≡ n
unfolding child_at set_child
set_child-child_at (pos k) c (split d cs) h = ap (split d) (set_nth-nth k c cs h)
set_child-child_at (pos k) c (both l d cs) h = ap (both l d) (set_nth-nth k c cs h)
set_child-child_at (pos k) c (leaf l) h = refl
set_child-child_at (pos k) c neither h = refl
set_child-child_at (negsuc k) c n h = refl

-- The steps of `at` and of `put` at a child that is there.
pub at-child : (i : ℤ) (p : List ℤ) (c n : Node) → child_at i n ≡ some c → at (i ∷ p) n ≡ at p c
unfolding at
at-child i p c n h = rw (h, at)

pub put-child :
    (i : ℤ) (p : List ℤ) (m c n : Node)
    → child_at i n ≡ some c
    → put (i ∷ p) m n ≡ set_child i (put p m c) n
unfolding put
put-child i p m c n h = rw (h, put)

pub at-no_child : (i : ℤ) (p : List ℤ) (n : Node) → child_at i n ≡ none → at (i ∷ p) n ≡ none
unfolding at
at-no_child i p n h = rw (h, at)

-- A node that is at a path of at least one index has a parent's child on the way.
pub at-step :
    (i : ℤ) (p : List ℤ) (n t : Node)
    → at (i ∷ p) n ≡ some t
    → (c : Node) × ((child_at i n ≡ some c) × (at p c ≡ some t))
at-step i p n t h = elim (Option-cases (child_at i n)) [
  | inl e ↦ absurd (cc (sym (at-no_child i p n e) ∙ h))
  | inr (c, e) ↦ (c, (e, sym (at-child i p c n e) ∙ h))
]

pub at-put : (p : List ℤ) (m t n : Node) → at p n ≡ some t → at p (put p m n) ≡ some m
unfolding at put
at-put [] m t n h = refl
at-put (i ∷ p) m t n h =
    let (c, (e, u)) = at-step i p n t h in
    ap (at (i ∷ p)) (put-child i p m c n e)
    ∙ at-child i p (put p m c) (set_child i (put p m c) n) (child_at-set_child i (put p m c) c n e)
    ∙ at-put p m t c u

pub put_twice : (p : List ℤ) (a b t n : Node) → at p n ≡ some t → put p a (put p b n) ≡ put p a n
unfolding put
put_twice [] a b t n h = refl
put_twice (i ∷ p) a b t n h =
    let (c, (e, u)) = at-step i p n t h in
    ap (put (i ∷ p) a) (put-child i p b c n e)
    ∙ put-child i p a (put p b c) (set_child i (put p b c) n)
        (child_at-set_child i (put p b c) c n e)
    ∙ set_child_twice i (put p a (put p b c)) (put p b c) n
    ∙ ap (λ d. set_child i d n) (put_twice p a b t c u)
    ∙ sym (put-child i p a c n e)

pub put-at : (p : List ℤ) (t n : Node) → at p n ≡ some t → put p t n ≡ n
unfolding at put
put-at [] t n h = let e : n ≡ t = cc h in sym e
put-at (i ∷ p) t n h =
    let (c, (e, u)) = at-step i p n t h in
    put-child i p t c n e ∙ ap (λ d. set_child i d n) (put-at p t c u) ∙ set_child-child_at i c n e
