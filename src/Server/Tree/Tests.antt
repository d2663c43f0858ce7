-- ===== src/Server/Tree/Tests.antt =====
-- A row of a pane and a column of two.
use familyplanner.Prelude.{◌≡◌, refl, none, [], ◌∷◌, ◌++◌, pos, negsuc}
use familyplanner.Server.Tree.{
  row, col, other, Node, split, nil, child, ok, validate, split_problem, at, child_at, nth, pane,
  split_leaf, remove, splits, removes, assigns, weighs, edit_all,
}
use familyplanner.Server.Tree.Edits.{edits_stay_valid}
use familyplanner.Server.Tree.Undo.{split_undone}

abbrev screen : Node
screen = split row (
    child (pos 10000) (pane 4) (
      child (pos 20000) (split col (child (pos 10000) (pane 5) (child (pos 10000) (pane 6) nil)))
        nil))

edits_stay_valid_example :
    validate (
      edit_all
        (splits (pos 0 ∷ []) col
          ∷ splits (pos 1 ∷ []) (other "diagonal")
          ∷ assigns (pos 0 ∷ (pos 1 ∷ [])) 9
          ∷ weighs (pos 1 ∷ []) (pos 5000)
          ∷ removes (pos 1 ∷ (pos 0 ∷ []))
          ∷ removes (negsuc 0 ∷ [])
          ∷ [])
        screen)
    ≡ none
unfolding validate split_problem
edits_stay_valid_example =
    edits_stay_valid
      (splits (pos 0 ∷ []) col
        ∷ splits (pos 1 ∷ []) (other "diagonal")
        ∷ assigns (pos 0 ∷ (pos 1 ∷ [])) 9
        ∷ weighs (pos 1 ∷ []) (pos 5000)
        ∷ removes (pos 1 ∷ (pos 0 ∷ []))
        ∷ removes (negsuc 0 ∷ [])
        ∷ [])
      screen refl

split_undone_example :
    (m : Node) × ((split_leaf (pos 1 ∷ (pos 0 ∷ [])) row screen ≡ ok m)
      × (remove ((pos 1 ∷ (pos 0 ∷ [])) ++ (pos 1 ∷ [])) m ≡ ok screen))
unfolding at child_at nth
split_undone_example =
    split_undone (pos 1 ∷ (pos 0 ∷ [])) row (record { widget_id = 5; overrides = none }) screen refl
      refl
