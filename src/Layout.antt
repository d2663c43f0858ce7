-- ===== src/Layout.antt =====
-- The layout editor, internal/web/assets/layouteditor.js: the drag of a gutter between two panes of a split.
-- Weights are in ten-thousandths, the digits that the script writes; positions and sizes are in the unit of
-- the browser's layout, a 64th of a pixel.
mod Shares
mod Moves
mod Tests
use Prim.Native.String.{String}
use familyplanner.Prelude.{
  ℕ, zero, suc, ◌+◌, ◌-◌, ◌*◌, ◌/◌, Bool, true, false, Option, none, some, List, [], ◌∷◌, ◌++◌,
  if◌then◌else◌, leb, ℤ, pos_part, ◌-ℤ◌, ltb_ℤ, ◌==◌, get_elem?, set,
}

-- `getBoundingClientRect()`
pub record Rect : Type 0 where
  pub left : ℤ
  pub top : ℤ
  pub width : ℕ
  pub height : ℕ

-- A child of the split. `weight` is its `flexGrow`, where that is a number.
pub record Child : Type 0 where
  pub is_wrap : Bool  -- it has the class `epane-wrap`
  pub gutter : Option Bool  -- it is a gutter, and whether its `dir` is "row"
  pub weight : Option ℕ
  pub rect : Rect

pub record Drag : Type 0 where
  pub prev : ℕ  -- the places of the two panes
  pub next : ℕ
  pub horizontal : Bool
  pub sum_px : ℕ
  pub sum_w : ℕ
  pub start_pos : ℤ

pub record Editor : Type 0 where
  pub path : String
  pub children : List Child
  pub drag : Option Drag
  pub posts : List (String × List ℕ)  -- the weights that were sent, the last first

-- `parseFloat(…) || 1`
pub grow : Option ℕ → ℕ
grow none = 10000
grow (some zero) = 10000
grow (some (suc w)) = suc w

pub drag_of : ℕ → Bool → Child → Child → Drag
drag_of k row p n = record {
  prev = k - 1;
  next = k + 1;
  horizontal = row;
  sum_px = if row then p.rect.width + n.rect.width else p.rect.height + n.rect.height;
  sum_w = grow p.weight + grow n.weight;
  start_pos = if row then p.rect.left else p.rect.top;
}

pub press_on : ℕ → Option Bool → Option Child → Option Child → Editor → Editor
press_on k (some row) (some p) (some n) e = record e { drag = some (drag_of k row p n) }
press_on k _ _ _ e = e

pub gutter_at : Option Child → Option Bool
gutter_at none = none
gutter_at (some c) = c.gutter

-- The child before the place `k`.
pub before : ℕ → List Child → Option Child
before zero cs = none
before (suc k) cs = get_elem? cs k

-- `pointerdown` on the child at the place `k`.
pub press : ℕ → Editor → Editor
press k e =
    press_on k (gutter_at (get_elem? e.children k)) (before k e.children)
      (get_elem? e.children (k + 1)) e

-- `frac`, as a numerator and a denominator, where a negative quotient is as good as 0; `none` is a quotient
-- of 0 by 0, which no minimum or maximum makes a number.
pub frac : ℤ → ℤ → ℕ → Option (ℕ × ℕ)
frac at start zero =
    if ltb_ℤ start at then some (92, 100) else if ltb_ℤ at start then some (8, 100) else none
frac at start (suc n) =
    let o = pos_part (at -ℤ start) in
    if leb (100 * o) (8 * suc n)
    then some (8, 100)
    else if leb (92 * suc n) (100 * o)
    then some (92, 100)
    else some (o, suc n)

-- `(n / d * w).toFixed(4)`
pub portion : ℕ → ℕ → ℕ → ℕ
portion n d w = (2 * n * w + d) / (2 * d)

pub set_weight : ℕ → ℕ → List Child → List Child
set_weight k w [] = []
set_weight zero w (c ∷ cs) = record c { weight = some w } ∷ cs
set_weight (suc k) w (c ∷ cs) = c ∷ set_weight k w cs

-- An assignment of what is not a number changes nothing.
pub resize : Option (ℕ × ℕ) → Drag → List Child → List Child
resize none d cs = cs
resize (some (n, m)) d cs =
    set_weight d.next (portion (m - n) m d.sum_w) (set_weight d.prev (portion n m d.sum_w) cs)

abbrev pub frac_at : ℤ → ℤ → Drag → Option (ℕ × ℕ)
frac_at x y d = frac (if d.horizontal then x else y) d.start_pos d.sum_px

pub move_if : Option Drag → ℤ → ℤ → Editor → Editor
move_if none x y e = e
move_if (some d) x y e = record e { children = resize (frac_at x y d) d e.children }

-- `pointermove`
pub move : ℤ → ℤ → Editor → Editor
move x y e = move_if e.drag x y e

-- The weights that `endDrag` sends.
pub weights : List Child → List ℕ
weights [] = []
weights (c ∷ cs) = let rest = weights cs in if c.is_wrap then grow c.weight ∷ rest else rest

pub end_if : Option Drag → Editor → Editor
end_if none e = e
end_if (some d) e = record e { drag = none; posts = (e.path, weights e.children) ∷ e.posts }

-- `pointerup` and `pointercancel`
pub end_drag : Editor → Editor
end_drag e = end_if e.drag e
