-- ===== src/Kiosk/Manual/Keys.antt =====
-- What the keys of the manual focus do to the widgets, one key after another.
use familyplanner.Prelude.{
  ℕ, zero, suc, ◌≡◌, refl, sym, ◌∙◌, ap, Bool, false, Option, none, some, List, [], ◌∷◌, arith,
  length, get_elem?, ℤ, pos, negsuc, inl, inr, ◌⊎◌, Option-cases,
}
use familyplanner.Kiosk.State.{Box, Widget, Effect}
use familyplanner.Kiosk.Manual.{
  Focus, update_at, thaw, focus_widget, scrolled, scroll_held, hold, scroll_cell, unmark,
  exit_manual, scroll_widget, scroll_box, Hooks, medium_key, medium_or_cell, scroll_at, scroll_idx,
  scroll_focused,
}
use familyplanner.Kiosk.Manual.Index.{Delta}
use familyplanner.Kiosk.Manual.Laws.{
  OnlyHeld, OnlyMarked, IsValid, length-update_at, thaw-OnlyHeld, freeze_focused-IsValid,
  focus_widget-IsValid,
}

update_at-find {ℓ} :
    {A : Type ℓ} (xs : List A) (k i : ℕ) (f : A → A) (y : A)
    → get_elem? (update_at k f xs) i ≡ some y
    → (x : A) × (get_elem? xs i ≡ some x) × ((y ≡ x) ⊎ (y ≡ f x))
unfolding update_at
update_at-find [] k i f y e = cc
update_at-find (x ∷ xs) zero zero f y e = (x, refl, inr (cc))
update_at-find (x ∷ xs) zero (suc i) f y e = (y, e, inl refl)
update_at-find (x ∷ xs) (suc k) zero f y e = (x, refl, inl (cc))
update_at-find (x ∷ xs) (suc k) (suc i) f y e = update_at-find xs k i f y e

scrolled-frozen : (dir : ℤ) (b : Box) → (scrolled dir b).frozen ≡ b.frozen
unfolding scrolled
scrolled-frozen dir b = refl

scroll_held-OnlyMarked :
    (dir : ℤ) (held : Option ℕ) (ws : List Widget) (idx : ℤ)
    → OnlyMarked ws idx
    → OnlyMarked (scroll_held dir held ws) idx
unfolding scroll_held
scroll_held-OnlyMarked dir none ws idx h = h
scroll_held-OnlyMarked dir (some k) ws idx h = λ i w e.
    let (v, there, which) = update_at-find ws k i (scroll_widget dir) w e in
    elim which [ inl s ↦ rw s (h i v there) | inr s ↦ rw s (h i v there) ]

scroll_widget-frozen :
    (dir : ℤ) (v : Widget) (c : Box) (b : Bool)
    → (scroll_widget dir v).cell ≡ some c
    → ((d : Box) → v.cell ≡ some d → d.frozen ≡ b)
    → c.frozen ≡ b
scroll_widget-frozen dir v c b e h = elim (Option-cases v.cell) [
  | inl n ↦ let p : none ≡ some c = ap (scroll_box dir) (sym n) ∙ e in cc
  | inr (d, s) ↦
      let p : some (scrolled dir d) ≡ some c = ap (scroll_box dir) (sym s) ∙ e in
      let q : scrolled dir d ≡ c = cc in
      ap (λ (t : Box). t.frozen) (sym q) ∙ scrolled-frozen dir d ∙ h d s
]

scroll_held-OnlyHeld :
    (dir : ℤ) (held to : Option ℕ) (ws : List Widget)
    → OnlyHeld ws held
    → OnlyHeld (scroll_held dir to ws) held
unfolding scroll_held
scroll_held-OnlyHeld dir held none ws h = h
scroll_held-OnlyHeld dir held (some k) ws h = λ i w c e f.
    let (v, there, which) = update_at-find ws k i (scroll_widget dir) w e in
    elim which [
      | inl s ↦ h i v c there (ap (λ (t : Widget). t.cell) (sym s) ∙ f)
      | inr s ↦
          scroll_widget-frozen dir v c _ (ap (λ (t : Widget). t.cell) (sym s) ∙ f)
            (λ d g. h i v d there g)
    ]

length-scroll_held :
    (dir : ℤ) (to : Option ℕ) (ws : List Widget) → length (scroll_held dir to ws) ≡ length ws
unfolding scroll_held
length-scroll_held dir none ws = refl
length-scroll_held dir (some k) ws = length-update_at ws k (scroll_widget dir)

hold-IsValid : (held : Option ℕ) (f : Focus) → IsValid f → IsValid (hold held f)
unfolding hold
hold-IsValid none f v = freeze_focused-IsValid f v.above v.below v.thawed
hold-IsValid (some k) f v = v

scroll_cell-IsValid : (dir : ℤ) (f : Focus) → IsValid f → IsValid (scroll_cell dir f)
unfolding scroll_cell
scroll_cell-IsValid dir f v =
    let g = hold f.frozen f in
    let w = hold-IsValid f.frozen f v in
    record {
      above = w.above;
      below = rw (length-scroll_held dir g.frozen g.widgets) w.below;
      marked = scroll_held-OnlyMarked dir g.frozen g.widgets g.focus_idx w.marked;
      thawed = scroll_held-OnlyHeld dir g.frozen g.frozen g.widgets w.thawed;
      held = w.held;
    }

medium_or_cell-IsValid :
    (dir : ℤ) (e? : Option Effect) (f : Focus) → IsValid f → IsValid (medium_or_cell dir e? f).0
unfolding medium_or_cell
medium_or_cell-IsValid dir none f v = scroll_cell-IsValid dir f v
medium_or_cell-IsValid dir (some e) f v = v

scroll_at-IsValid :
    (hooks : Hooks) (dir : ℤ) (k : ℕ) (w? : Option Widget) (f : Focus)
    → IsValid f
    → IsValid (scroll_at hooks dir k w? f).0
unfolding scroll_at
scroll_at-IsValid hooks dir k none f v = focus_widget-IsValid (pos 1) f (inl refl) v
scroll_at-IsValid hooks dir k (some w) f v =
    medium_or_cell-IsValid dir (medium_key hooks dir k w) f v

scroll_idx-IsValid :
    (hooks : Hooks) (dir idx : ℤ) (f : Focus) → IsValid f → IsValid (scroll_idx hooks dir idx f).0
unfolding scroll_idx
scroll_idx-IsValid hooks dir (pos k) f v = scroll_at-IsValid hooks dir k (get_elem? f.widgets k) f v
scroll_idx-IsValid hooks dir (negsuc k) f v = focus_widget-IsValid (pos 1) f (inl refl) v

pub scroll_focused-IsValid :
    (hooks : Hooks) (dir : ℤ) (f : Focus) → IsValid f → IsValid (scroll_focused hooks dir f).0
unfolding scroll_focused
scroll_focused-IsValid hooks dir f v = scroll_idx-IsValid hooks dir f.focus_idx f v

unmark-find :
    (ws : List Widget) (i : ℕ) (y : Widget)
    → get_elem? (unmark ws) i ≡ some y
    → (x : Widget) × (get_elem? ws i ≡ some x) × (y ≡ record x { focused = false })
unfolding unmark
unmark-find [] i y e = cc
unmark-find (w ∷ ws) zero y e = (w, refl, cc)
unmark-find (w ∷ ws) (suc i) y e = unmark-find ws i y e

length-unmark : (ws : List Widget) → length (unmark ws) ≡ length ws
unfolding unmark
length-unmark [] = refl
length-unmark (w ∷ ws) = ap suc (length-unmark ws)

pub exit_manual-IsValid : (f : Focus) → IsValid f → IsValid (exit_manual f)
unfolding exit_manual
exit_manual-IsValid f v =
    let ws = thaw f.frozen f.widgets in
    record {
      above = omega arith;
      below = omega arith;
      marked = λ i w e.
          let (x, there, s) = unmark-find ws i w e in
          ap (λ (t : Widget). t.focused) s ∙ ground arith;
      thawed = λ i w c e g.
          let (x, there, s) = unmark-find ws i w e in
          thaw-OnlyHeld f.frozen f.widgets v.thawed i x c there
            (ap (λ (t : Widget). t.cell) (sym s) ∙ g);
      held = λ k e. cc;
    }

-- The keys: Ctrl with a side arrow, Ctrl with an arrow down or up, and Escape.
pub data Press : Type 0 where
  focus : (d : ℤ) → Delta d → Press
  scroll : (d : ℤ) → Delta d → Press
  leave : Press

pub press : Hooks → Press → Focus → Focus
press hooks (focus d _) f = focus_widget d f
press hooks (scroll d _) f = (scroll_focused hooks d f).0
press hooks leave f = exit_manual f

pub presses : Hooks → List Press → Focus → Focus
presses hooks [] f = f
presses hooks (k ∷ ks) f = presses hooks ks (press hooks k f)

press-IsValid : (hooks : Hooks) (k : Press) (f : Focus) → IsValid f → IsValid (press hooks k f)
unfolding press
press-IsValid hooks (focus d h) f v = focus_widget-IsValid d f h v
press-IsValid hooks (scroll d _) f v = scroll_focused-IsValid hooks d f v
press-IsValid hooks leave f v = exit_manual-IsValid f v

-- After any keys the focus is one of the widgets or none, exactly that widget has the mark, and no
-- scroller but that widget's is held still.
pub presses-IsValid :
    (hooks : Hooks) (ks : List Press) (f : Focus) → IsValid f → IsValid (presses hooks ks f)
unfolding presses
presses-IsValid hooks [] f v = v
presses-IsValid hooks (k ∷ ks) f v =
    presses-IsValid hooks ks (press hooks k f) (press-IsValid hooks k f v)
