-- ===== src/Server/Tree.antt =====
-- The layout trees of internal/layout/layout.go: `Validate`, and the edits of the layout editor. An edit
-- that mutates the tree through a pointer gives the new tree; an error leaves the tree as it was.
pub mod Lens
mod Valid
mod Edits
mod Undo
mod Tests
use Prim.Native.String.{String}
use familyplanner.Prelude.{
  ℕ, zero, suc, ◌+◌, Bool, true, false, ◌&&◌, Option, none, some, List, [], ◌∷◌, if◌then◌else◌, ltb,
  ℤ, pos, negsuc,
}

-- `Direction`, a text that may be something else.
pub data Direction : Type 0 where
  row col : Direction
  other : String → Direction

-- `Leaf`: the widget, 0 for an empty pane, and the overrides.
pub record Leaf : Type 0 where
  pub widget_id : ℕ
  pub overrides : Option String

-- `Node`, of which JSON may give both halves or none; a weight is in ten-thousandths.
mutual
  pub data Node : Type 0 where
    leaf : Leaf → Node
    split : Direction → Children → Node
    both : Leaf → Direction → Children → Node
    neither : Node

  pub data Children : Type 0 where
    nil : Children
    child : ℤ → Node → Children → Children

pub data Problem : Type 0 where
  has_both empty_node invalid_direction too_few : Problem
  not_found not_a_leaf at_root not_a_split bad_index bad_weight bad_path : Problem

pub data Result (A : Type 0) : Type 0 where
  ok : A → Result A
  err : Problem → Result A

abbrev pub is_direction : Direction → Bool
is_direction row = true
is_direction col = true
is_direction (other s) = false

abbrev pub count : Children → ℕ
count nil = 0
count (child w n cs) = suc (count cs)

abbrev pub first_of : Option Problem → Option Problem → Option Problem
first_of (some e) f = some e
first_of none f = f

-- What `Validate` says of a split, with what it says of the children.
pub split_problem : Bool → Bool → Option Problem → Option Problem
split_problem false few rest = some invalid_direction
split_problem true true rest = some too_few
split_problem true false rest = rest

-- `Validate`: the problem that it finds first, if any.
mutual
  pub validate : Node → Option Problem
  validate (leaf l) = none
  validate (split d cs) = split_problem (is_direction d) (ltb (count cs) 2) (validate_all cs)
  validate (both l d cs) = some has_both
  validate neither = some empty_node

  pub validate_all : Children → Option Problem
  validate_all nil = none
  validate_all (child w n cs) = first_of (validate n) (validate_all cs)

-- `Children[idx].Node`, for an index in range
pub nth : ℕ → Children → Option Node
nth k nil = none
nth zero (child w n cs) = some n
nth (suc k) (child w n cs) = nth k cs

pub set_nth : ℕ → Node → Children → Children
set_nth k m nil = nil
set_nth zero m (child w n cs) = child w m cs
set_nth (suc k) m (child w n cs) = child w n (set_nth k m cs)

pub child_at : ℤ → Node → Option Node
child_at (pos k) (split d cs) = nth k cs
child_at (pos k) (both l d cs) = nth k cs
child_at _ _ = none

pub set_child : ℤ → Node → Node → Node
set_child (pos k) m (split d cs) = split d (set_nth k m cs)
set_child (pos k) m (both l d cs) = both l d (set_nth k m cs)
set_child _ m n = n

-- `at(path)`
pub at : List ℤ → Node → Option Node
at [] n = some n
at (i ∷ p) n = elim (child_at i n) [ none ↦ none | some c ↦ at p c ]

-- `*target = m`, for the target at the path
pub put : List ℤ → Node → Node → Node
put [] m n = m
put (i ∷ p) m n = elim (child_at i n) [ none ↦ n | some c ↦ set_child i (put p m c) n ]

abbrev pub pane : ℕ → Node
pane w = leaf (record { widget_id = w; overrides = none })

-- The two equal panes that a leaf is split into.
abbrev pub halved : Direction → Node → Node
halved d old = split d (child (pos 10000) old (child (pos 10000) (pane 0) nil))

pub halve : Direction → Option Node → Result Node
halve d none = err not_found
halve d (some (leaf l)) = ok (halved d (leaf l))
halve d (some (both l e cs)) = ok (halved d (both l e cs))
halve d (some t) = err not_a_leaf

pub put_result : List ℤ → Node → Result Node → Result Node
put_result p n (ok m) = ok (put p m n)
put_result p n (err e) = err e

-- `SplitLeaf(path, dir)`
pub split_leaf : List ℤ → Direction → Node → Result Node
split_leaf p d n =
    if is_direction d then put_result p n (halve d (at p n)) else err invalid_direction

-- `path[:len(path)-1]` and `path[len(path)-1]`
pub front : ℤ → List ℤ → List ℤ
front i [] = []
front i (j ∷ p) = i ∷ front j p

pub back : ℤ → List ℤ → ℤ
back i [] = i
back i (j ∷ p) = back j p

pub delete : ℕ → Children → Children
delete k nil = nil
delete zero (child w n cs) = cs
delete (suc k) (child w n cs) = child w n (delete k cs)

-- A split that is left with one child gives way to it.
pub collapse : Node → Children → Node
collapse whole (child w n nil) = n
collapse whole cs = whole

pub remove_in : Direction → Children → ℤ → Result Node
remove_in d cs (negsuc k) = err bad_index
remove_in d cs (pos k) =
    if ltb k (count cs) then ok (collapse (split d (delete k cs)) (delete k cs)) else err bad_index

pub remove_both : Leaf → Direction → Children → ℤ → Result Node
remove_both l d cs (negsuc k) = err bad_index
remove_both l d cs (pos k) =
    if ltb k (count cs) then ok (collapse (both l d (delete k cs)) (delete k cs)) else err bad_index

pub remove_from : Option Node → ℤ → Result Node
remove_from (some (split d cs)) i = remove_in d cs i
remove_from (some (both l d cs)) i = remove_both l d cs i
remove_from _ i = err not_a_split

-- `Remove(path)`
pub remove : List ℤ → Node → Result Node
remove [] n = err at_root
remove (i ∷ p) n = put_result (front i p) n (remove_from (at (front i p) n) (back i p))

pub assign : ℕ → Option Node → Result Node
assign w (some (leaf l)) = ok (leaf (record l { widget_id = w }))
assign w (some (both l d cs)) = ok (both (record l { widget_id = w }) d cs)
assign w _ = err bad_path

-- `SetWidget(path, widgetID)`
pub set_widget : List ℤ → ℕ → Node → Result Node
set_widget p w n = put_result p n (assign w (at p n))

pub weigh : ℤ → ℕ → Children → Children
weigh w k nil = nil
weigh w zero (child v n cs) = child w n cs
weigh w (suc k) (child v n cs) = child v n (weigh w k cs)

pub weigh_in : ℤ → ℤ → Option Node → Result Node
weigh_in w (pos k) (some (split d cs)) =
    if ltb k (count cs) then ok (split d (weigh w k cs)) else err bad_path
weigh_in w (pos k) (some (both l d cs)) =
    if ltb k (count cs) then ok (both l d (weigh w k cs)) else err bad_path
weigh_in w i t = err bad_path

pub is_weight : ℤ → Bool
is_weight (pos (suc k)) = true
is_weight _ = false

-- `SetWeight(path, weight)`
pub set_weight : List ℤ → ℤ → Node → Result Node
set_weight [] w n = err at_root
set_weight (i ∷ p) w n =
    if is_weight w
    then put_result (front i p) n (weigh_in w (back i p) (at (front i p) n))
    else err bad_weight

-- The edits that the editor asks for. Where one is refused, the stored tree stays.
pub data Edit : Type 0 where
  splits : List ℤ → Direction → Edit
  removes : List ℤ → Edit
  assigns : List ℤ → ℕ → Edit
  weighs : List ℤ → ℤ → Edit

pub edit : Edit → Node → Result Node
edit (splits p d) n = split_leaf p d n
edit (removes p) n = remove p n
edit (assigns p w) n = set_widget p w n
edit (weighs p w) n = set_weight p w n

pub kept : Node → Result Node → Node
kept n (ok m) = m
kept n (err e) = n

pub edit_all : List Edit → Node → Node
edit_all [] n = n
edit_all (e ∷ es) n = edit_all es (kept n (edit e n))
