-- ===== src/Server/Tree/Undo.antt =====
-- A split that is undone.
use familyplanner.Prelude.{◌≡◌, refl, ap, ◌∙◌, true, some, List, [], ◌∷◌, ◌++◌, ℤ, pos}
use familyplanner.Server.Tree.{
  Direction, Leaf, Node, leaf, ok, is_direction, at, put, halved, halve, put_result, split_leaf,
  front, back, delete, collapse, remove_in, remove_from, remove,
}
use familyplanner.Server.Tree.Lens.{at-put, put_twice, put-at}

front-snoc : (i : ℤ) (p : List ℤ) (k : ℤ) → front i (p ++ (k ∷ [])) ≡ i ∷ p
unfolding front
front-snoc i [] k = refl
front-snoc i (j ∷ p) k = ap (λ q. i ∷ q) (front-snoc j p k)

back-snoc : (i : ℤ) (p : List ℤ) (k : ℤ) → back i (p ++ (k ∷ [])) ≡ k
unfolding back
back-snoc i [] k = refl
back-snoc i (j ∷ p) k = back-snoc j p k

remove-snoc :
    (p : List ℤ) (k : ℤ) (n : Node)
    → remove (p ++ (k ∷ [])) n ≡ put_result p n (remove_from (at p n) k)
unfolding remove front back
remove-snoc [] k n = refl
remove-snoc (i ∷ p) k n = rw (front-snoc i p k, back-snoc i p k) refl

split_leaf-put :
    (p : List ℤ) (d : Direction) (l : Leaf) (n : Node)
    → is_direction d ≡ true
    → at p n ≡ some (leaf l)
    → split_leaf p d n ≡ ok (put p (halved d (leaf l)) n)
unfolding split_leaf put_result halve
split_leaf-put p d l n e h = rw (e, h) refl

remove_new : (d : Direction) (t : Node) → remove_from (some (halved d t)) (pos 1) ≡ ok t
unfolding remove_from remove_in delete collapse
remove_new d t = refl

-- A pane that is split, in either direction, can be split: and the removal of the new pane gives the layout
-- back as it was, wherever in it the pane is.
pub split_undone :
    (p : List ℤ) (d : Direction) (l : Leaf) (n : Node)
    → is_direction d ≡ true
    → at p n ≡ some (leaf l)
    → (m : Node) × ((split_leaf p d n ≡ ok m) × (remove (p ++ (pos 1 ∷ [])) m ≡ ok n))
unfolding put_result
split_undone p d l n e h =
    let t = halved d (leaf l) in
    let m = put p t n in
    (
      m,
      (
        split_leaf-put p d l n e h,
        remove-snoc p (pos 1) m
            ∙ ap (λ o. put_result p m (remove_from o (pos 1))) (at-put p t (leaf l) n h)
            ∙ ap (put_result p m) (remove_new d (leaf l))
            ∙ ap ok (put_twice p (leaf l) t (leaf l) n h ∙ put-at p (leaf l) n h),
      ),
    )
