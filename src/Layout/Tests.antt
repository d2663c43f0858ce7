-- ===== src/Layout/Tests.antt =====
-- A split of two panes, 100 and 300 pixels wide, with a gutter between them.
use familyplanner.Prelude.{
  pos, negsuc, ◌-◌, ◌≡◌, refl, arith, true, false, none, some, [], ◌∷◌, ◌++◌,
}
use familyplanner.Layout.{
  Child, Editor, grow, drag_of, gutter_at, before, press, frac, portion, set_weight, resize,
  frac_at, weights, end_drag,
}
use familyplanner.Layout.Shares.{IsFair, resize-IsFair}
use familyplanner.Layout.Moves.{moves, drag_sends}

abbrev left_pane : Child
left_pane = record {
  is_wrap = true;
  gutter = none;
  weight = some 10000;
  rect = record { left = pos 0; top = pos 0; width = 6400; height = 6400 };
}

abbrev right_pane : Child
right_pane = record {
  is_wrap = true;
  gutter = none;
  weight = some 30000;
  rect = record { left = pos 6400; top = pos 0; width = 19200; height = 6400 };
}

abbrev handle : Child
handle = record {
  is_wrap = false;
  gutter = some true;
  weight = none;
  rect = record { left = pos 6400; top = pos 0; width = 0; height = 6400 };
}

abbrev editor : Editor
editor = record {
  path = "0";
  children = left_pane ∷ (handle ∷ (right_pane ∷ []));
  drag = none;
  posts = [];
}

-- Dragged to the middle, both panes weigh the same.
to_the_middle :
    weights (
      resize
        (frac_at (pos 12800) (pos 0) (drag_of 1 true left_pane right_pane))
        (drag_of 1 true left_pane right_pane)
        editor.children)
    ≡ 20000 ∷ (20000 ∷ [])
unfolding weights resize frac drag_of portion set_weight grow
to_the_middle = refl

drag_sends_example :
    let d = drag_of 1 true left_pane right_pane in
    let f =
      end_drag (moves (((negsuc 299, pos 0) ∷ []) ++ ((pos 12800, pos 0) ∷ [])) (press 1 editor)) in
    (f.drag ≡ none)
    × (f.posts ≡ ("0", weights (resize (frac_at (pos 12800) (pos 0) d) d editor.children)) ∷ [])
drag_sends_example =
    drag_sends 0 editor true left_pane right_pane ((negsuc 299, pos 0) ∷ []) (pos 12800) (pos 0)
      (unfold gutter_at in refl) (unfold before in refl) refl (unfold drag_of in omega arith)

resize-IsFair_example :
    IsFair 40000 (portion 12800 25600 40000) (portion (25600 - 12800) 25600 40000)
resize-IsFair_example =
    resize-IsFair (pos 12800) (pos 0) 25600 40000 12800 25600 (unfold frac in refl)
