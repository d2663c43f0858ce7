-- ===== src/Server/Tree/Edits.antt =====
-- What the edits keep.
use familyplanner.Prelude.{
  ℕ, zero, suc, ◌+◌, ◌<◌, ◌≤◌, ◌≡◌, refl, sym, ap, subst, true, Option, none, some, List, [], ◌∷◌,
  ℤ, pos, negsuc, ltb, ltb→lt, arith, Bool-cases, inl, inr, Option-cases,
}
use familyplanner.Server.Tree.{
  Direction, Node, leaf, split, both, neither, Children, nil, child, Problem, not_found,
  not_a_split, bad_path, Result, ok, err, is_direction, count, validate, at, halve, split_leaf,
  front, back, delete, collapse, remove_in, remove_from, put_result, remove, assign, set_widget,
  weigh, weigh_in, is_weight, set_weight, Edit, splits, removes, assigns, weighs, edit, kept,
  edit_all,
}
use familyplanner.Server.Tree.Valid.{IsWell, AllWell, validate-IsWell, at-IsWell, put-IsWell}

-- Where there is a tree, it is well formed.
abbrev pub Gives : Result Node → Type 0
Gives (ok m) = IsWell m
Gives (err e) = Unit

-- An edit of the node at a path, if there is one.
at-Gives :
    (p : List ℤ) (n : Node) (f : Option Node → Result Node)
    → IsWell n
    → ((e : Problem) × (f none ≡ err e))
    → ((t : Node) → IsWell t → Gives (f (some t)))
    → Gives (put_result p n (f (at p n)))
unfolding put_result
at-Gives p n f h (e, q) g = elim (Option-cases (at p n)) [
  | inl a ↦ rw (a, q) tt
  | inr (t, a) ↦
      subst (λ o. Gives (put_result p n (f o))) (sym a)
        (put_result-Gives (f (some t)) (g t (at-IsWell p t n h a)) a)
]
  where
    put_result-Gives :
        {t : Node} (r : Result Node) → Gives r → at p n ≡ some t → Gives (put_result p n r)
    put_result-Gives {t} (ok m) v a = put-IsWell p m t n v h a
    put_result-Gives (err e) v a = tt

halve-none : (d : Direction) → (e : Problem) × (halve d none ≡ err e)
unfolding halve
halve-none d = (not_found, refl)

remove_from-none : (i : ℤ) → (e : Problem) × (remove_from none i ≡ err e)
unfolding remove_from
remove_from-none i = (not_a_split, refl)

assign-none : (w : ℕ) → (e : Problem) × (assign w none ≡ err e)
unfolding assign
assign-none w = (bad_path, refl)

weigh_in-none : (w i : ℤ) → (e : Problem) × (weigh_in w i none ≡ err e)
unfolding weigh_in
weigh_in-none w (pos k) = (bad_path, refl)
weigh_in-none w (negsuc k) = (bad_path, refl)

halve-Gives :
    (d : Direction) (t : Node) → is_direction d ≡ true → IsWell t → Gives (halve d (some t))
unfolding halve
halve-Gives d (leaf l) e h = (e, (omega arith, (h, (tt, tt))))
halve-Gives d (split f cs) e h = tt
halve-Gives d (both l f cs) e h = absurd h
halve-Gives d neither e h = tt

split_leaf-Gives : (p : List ℤ) (d : Direction) (n : Node) → IsWell n → Gives (split_leaf p d n)
unfolding split_leaf
split_leaf-Gives p d n h = elim (Bool-cases (is_direction d)) [
  | inl e ↦ rw e (at-Gives p n (halve d) h (halve-none d) (λ t w. halve-Gives d t e w))
  | inr e ↦ rw e tt
]

delete-AllWell :
    (k : ℕ) (cs : Children)
    → k < count cs
    → AllWell cs
    → AllWell (delete k cs) × (count (delete k cs) + 1 ≡ count cs)
unfolding delete
delete-AllWell k nil l h = absurd (omega arith)
delete-AllWell zero (child w n cs) l h = (h.1, omega arith)
delete-AllWell (suc k) (child w n cs) l h =
    let r = delete-AllWell k cs (omega arith) h.1 in ((h.0, r.0), omega (arith, r.1))

collapse-IsWell :
    (d : Direction) (cs : Children)
    → is_direction d ≡ true
    → 1 ≤ count cs
    → AllWell cs
    → IsWell (collapse (split d cs) cs)
unfolding collapse
collapse-IsWell d nil e l h = absurd (omega arith)
collapse-IsWell d (child w n nil) e l h = h.0
collapse-IsWell d (child w n (child v m cs)) e l h = (e, (omega arith, h))

remove_from-Gives : (i : ℤ) (t : Node) → IsWell t → Gives (remove_from (some t) i)
unfolding remove_from remove_in
remove_from-Gives i (leaf l) h = tt
remove_from-Gives i (both l d cs) h = absurd h
remove_from-Gives i neither h = tt
remove_from-Gives (negsuc k) (split d cs) h = tt
remove_from-Gives (pos k) (split d cs) h = elim (Bool-cases (ltb k (count cs))) [
  | inl e ↦
      let r = delete-AllWell k cs (ltb→lt k (count cs) e) h.1.1 in
      rw e (collapse-IsWell d (delete k cs) h.0 (omega (arith, r.1, h.1.0)) r.0)
  | inr e ↦ rw e tt
]

remove-Gives : (p : List ℤ) (n : Node) → IsWell n → Gives (remove p n)
unfolding remove
remove-Gives [] n h = tt
remove-Gives (i ∷ p) n h =
    at-Gives (front i p) n (λ o. remove_from o (back i p)) h (remove_from-none (back i p))
      (λ t w. remove_from-Gives (back i p) t w)

assign-Gives : (w : ℕ) (t : Node) → IsWell t → Gives (assign w (some t))
unfolding assign
assign-Gives w (leaf l) h = tt
assign-Gives w (split d cs) h = tt
assign-Gives w (both l d cs) h = absurd h
assign-Gives w neither h = tt

set_widget-Gives : (p : List ℤ) (w : ℕ) (n : Node) → IsWell n → Gives (set_widget p w n)
unfolding set_widget
set_widget-Gives p w n h = at-Gives p n (assign w) h (assign-none w) (λ t v. assign-Gives w t v)

weigh-AllWell :
    (w : ℤ) (k : ℕ) (cs : Children)
    → AllWell cs
    → AllWell (weigh w k cs) × (count (weigh w k cs) ≡ count cs)
unfolding weigh
weigh-AllWell w k nil h = (tt, refl)
weigh-AllWell w zero (child v n cs) h = (h, refl)
weigh-AllWell w (suc k) (child v n cs) h =
    let r = weigh-AllWell w k cs h.1 in ((h.0, r.0), ap suc r.1)

weigh_in-Gives : (w i : ℤ) (t : Node) → IsWell t → Gives (weigh_in w i (some t))
unfolding weigh_in
weigh_in-Gives w (negsuc k) t h = tt
weigh_in-Gives w (pos k) (leaf l) h = tt
weigh_in-Gives w (pos k) neither h = tt
weigh_in-Gives w (pos k) (both l d cs) h = absurd h
weigh_in-Gives w (pos k) (split d cs) h = elim (Bool-cases (ltb k (count cs))) [
  | inl e ↦
      let r = weigh-AllWell w k cs h.1.1 in rw e (h.0, (subst (λ j. 2 ≤ j) (sym r.1) h.1.0, r.0))
  | inr e ↦ rw e tt
]

set_weight-Gives : (p : List ℤ) (w : ℤ) (n : Node) → IsWell n → Gives (set_weight p w n)
unfolding set_weight
set_weight-Gives [] w n h = tt
set_weight-Gives (i ∷ p) w n h = elim (Bool-cases (is_weight w)) [
  | inl e ↦ rw e (
      at-Gives (front i p) n (weigh_in w (back i p)) h (weigh_in-none w (back i p))
        (λ t v. weigh_in-Gives w (back i p) t v))
  | inr e ↦ rw e tt
]

edit-Gives : (e : Edit) (n : Node) → IsWell n → Gives (edit e n)
unfolding edit
edit-Gives (splits p d) n h = split_leaf-Gives p d n h
edit-Gives (removes p) n h = remove-Gives p n h
edit-Gives (assigns p w) n h = set_widget-Gives p w n h
edit-Gives (weighs p w) n h = set_weight-Gives p w n h

kept-IsWell : (n : Node) (r : Result Node) → IsWell n → Gives r → IsWell (kept n r)
unfolding kept
kept-IsWell n (ok m) h g = g
kept-IsWell n (err e) h g = h

edit_all-IsWell : (es : List Edit) (n : Node) → IsWell n → IsWell (edit_all es n)
unfolding edit_all
edit_all-IsWell [] n h = h
edit_all-IsWell (e ∷ es) n h =
    edit_all-IsWell es (kept n (edit e n)) (kept-IsWell n (edit e n) h (edit-Gives e n h))

-- Whatever edits are made, with whatever paths, directions, widgets and weights, a layout that `Validate`
-- accepts stays one that it accepts.
pub edits_stay_valid :
    (es : List Edit) (n : Node) → validate n ≡ none → validate (edit_all es n) ≡ none
edits_stay_valid es n h =
    (validate-IsWell (edit_all es n)).1 (edit_all-IsWell es n ((validate-IsWell n).0 h))
