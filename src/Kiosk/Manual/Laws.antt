-- ===== src/Kiosk/Manual/Laws.antt =====
-- The focused widget, and only it, is marked and held still.
use familyplanner.Prelude.{
  ℕ, zero, suc, ◌+◌, ◌≡◌, refl, sym, ◌∙◌, ap, Bool, true, false, Option, none, some, List, [], ◌∷◌,
  if◌then◌else◌, arith, length, get_elem?, ℤ, pos, negsuc, ◌+ℤ◌, ◌≤ℤ◌, eqb_ℤ, ◌==◌, Bool-cases, inl,
  inr,
}
use mathlib.Core.Option
use familyplanner.Kiosk.State.{Box, Widget}
use familyplanner.Kiosk.Manual.Index.{Delta, next_idx_bounds}
use familyplanner.Kiosk.Manual.{
  Focus, update_at, flag, thaw, mark_from, scroller, at, freeze, mark, freeze_focused, next_idx,
  focus_widget,
}

module _ {ℓ} {A : Type ℓ} where
  get_elem?-update_at :
      (xs : List A) (k i : ℕ) (f : A → A)
      → get_elem? (update_at k f xs) i
        ≡ (if i == k then Option.map f (get_elem? xs i) else get_elem? xs i)
  unfolding update_at
  get_elem?-update_at [] k i f = ground arith
  get_elem?-update_at (x ∷ xs) zero zero f = refl
  get_elem?-update_at (x ∷ xs) zero (suc i) f = ground arith
  get_elem?-update_at (x ∷ xs) (suc k) zero f = ground arith
  get_elem?-update_at (x ∷ xs) (suc k) (suc i) f = get_elem?-update_at xs k i f ∙ ground arith

  pub length-update_at : (xs : List A) (k : ℕ) (f : A → A) → length (update_at k f xs) ≡ length xs
  unfolding update_at
  length-update_at [] k f = refl
  length-update_at (x ∷ xs) zero f = refl
  length-update_at (x ∷ xs) (suc k) f = ap suc (length-update_at xs k f)

get_elem?-mark_from :
    (j i : ℕ) (idx : ℤ) (ws : List Widget)
    → get_elem? (mark_from j idx ws) i ≡ Option.map (mark idx (j + i)) (get_elem? ws i)
unfolding mark_from
get_elem?-mark_from j i idx [] = refl
get_elem?-mark_from j zero idx (w ∷ ws) = ap (λ n. some (mark idx n w)) (omega arith)
get_elem?-mark_from j (suc i) idx (w ∷ ws) =
    get_elem?-mark_from (j + 1) i idx ws
    ∙ ap (λ n. Option.map (mark idx n) (get_elem? ws i)) (omega arith)

length-mark_from : (j : ℕ) (idx : ℤ) (ws : List Widget) → length (mark_from j idx ws) ≡ length ws
unfolding mark_from
length-mark_from j idx [] = refl
length-mark_from j idx (w ∷ ws) = ap suc (length-mark_from (j + 1) idx ws)

abbrev pub is_at : ℕ → Option ℕ → Bool
is_at i none = false
is_at i (some k) = i == k

-- Of the scrollers only the one at place `held` is frozen.
abbrev pub OnlyHeld : List Widget → Option ℕ → Type 0
OnlyHeld ws held =
    (i : ℕ) (w : Widget) (c : Box)
    → get_elem? ws i ≡ some w
    → w.cell ≡ some c
    → c.frozen ≡ is_at i held

pub thaw-OnlyHeld :
    (held : Option ℕ) (ws : List Widget) → OnlyHeld ws held → OnlyHeld (thaw held ws) none
unfolding thaw
thaw-OnlyHeld none ws h = h
thaw-OnlyHeld (some k) ws h =
    λ i w c e f. ground (arith, get_elem?-update_at ws k i (flag false), h i w c)

freeze-OnlyHeld :
    (idx : ℤ) (c? : Option Box) (ws : List Widget)
    → OnlyHeld ws none
    → OnlyHeld (freeze idx c? ws).0 (freeze idx c? ws).1
unfolding freeze
freeze-OnlyHeld (pos k) (some b) ws h =
    λ i w c e f. ground (arith, get_elem?-update_at ws k i (flag true), h i w c)
freeze-OnlyHeld (pos k) none ws h = h
freeze-OnlyHeld (negsuc k) c? ws h = h

mark_from-OnlyHeld :
    (idx : ℤ) (held : Option ℕ) (ws : List Widget)
    → OnlyHeld ws held
    → OnlyHeld (mark_from 0 idx ws) held
mark_from-OnlyHeld idx held ws h i w c e f =
    let (w₀, there, same) =
      (Option.map-eq-some_iff (mark idx (0 + i)) (get_elem? ws i)).0
        (sym (get_elem?-mark_from 0 i idx ws) ∙ e) in
    h i w₀ c there (ap (λ (v : Widget). v.cell) same ∙ f)

-- Of the widgets only the one at place `idx` has the class.
abbrev pub OnlyMarked : List Widget → ℤ → Type 0
OnlyMarked ws idx = (i : ℕ) (w : Widget) → get_elem? ws i ≡ some w → w.focused ≡ eqb_ℤ (pos i) idx

mark_from-OnlyMarked : (idx : ℤ) (ws : List Widget) → OnlyMarked (mark_from 0 idx ws) idx
mark_from-OnlyMarked idx ws i w e =
    let (w₀, there, same) =
      (Option.map-eq-some_iff (mark idx (0 + i)) (get_elem? ws i)).0
        (sym (get_elem?-mark_from 0 i idx ws) ∙ e) in
    ap (λ (v : Widget). v.focused) (sym same) ∙ ap (λ n. eqb_ℤ (pos n) idx) (omega arith)

-- The focus is one of the stage's widgets or none, exactly its widget is marked, and at most its
-- scroller is frozen.
pub record IsValid (f : Focus) : Type 0 where
  pub above : negsuc 0 ≤ℤ f.focus_idx
  pub below : f.focus_idx +ℤ pos 1 ≤ℤ pos (length f.widgets)
  pub marked : OnlyMarked f.widgets f.focus_idx
  pub thawed : OnlyHeld f.widgets f.frozen
  pub held : (k : ℕ) → f.frozen ≡ some k → f.focus_idx ≡ pos k

pub length-thaw : (held : Option ℕ) (ws : List Widget) → length (thaw held ws) ≡ length ws
unfolding thaw
length-thaw none ws = refl
length-thaw (some k) ws = length-update_at ws k (flag false)

length-freeze :
    (idx : ℤ) (c? : Option Box) (ws : List Widget) → length (freeze idx c? ws).0 ≡ length ws
unfolding freeze
length-freeze (pos k) (some b) ws = length-update_at ws k (flag true)
length-freeze (pos k) none ws = refl
length-freeze (negsuc k) c? ws = refl

pub length-freeze_focused : (f : Focus) → length (freeze_focused f).widgets ≡ length f.widgets
unfolding freeze_focused
length-freeze_focused f =
    let ws = thaw f.frozen f.widgets in
    length-mark_from 0 f.focus_idx _
    ∙ length-freeze f.focus_idx (scroller (at f.focus_idx ws)) ws
    ∙ length-thaw f.frozen f.widgets

freeze-held :
    (idx : ℤ) (c? : Option Box) (ws : List Widget) (k : ℕ)
    → (freeze idx c? ws).1 ≡ some k
    → idx ≡ pos k
unfolding freeze
freeze-held (pos j) (some b) ws k e = cc
freeze-held (pos j) none ws k e = cc
freeze-held (negsuc j) c? ws k e = cc

pub freeze_focused-IsValid :
    (f : Focus)
    → negsuc 0 ≤ℤ f.focus_idx
    → f.focus_idx +ℤ pos 1 ≤ℤ pos (length f.widgets)
    → OnlyHeld f.widgets f.frozen
    → IsValid (freeze_focused f)
unfolding freeze_focused
freeze_focused-IsValid f a b h =
    let ws = thaw f.frozen f.widgets in
    let c? = scroller (at f.focus_idx ws) in
    let same = length-freeze_focused f in
    record {
      above = a;
      below = rw same b;
      marked = mark_from-OnlyMarked f.focus_idx _;
      thawed =
          mark_from-OnlyHeld f.focus_idx _ _
            (freeze-OnlyHeld f.focus_idx c? ws (thaw-OnlyHeld f.frozen f.widgets h));
      held = freeze-held f.focus_idx c? ws;
    }

pub focus_widget-IsValid : (d : ℤ) (f : Focus) → Delta d → IsValid f → IsValid (focus_widget d f)
unfolding focus_widget
focus_widget-IsValid d f s v = elim (Bool-cases (length f.widgets == 0)) [
  | inl e ↦ rw e v
  | inr e ↦
      let (a, b) = next_idx_bounds d (length f.widgets) f.focus_idx (ground arith) s v.below in
      rw e (
        freeze_focused-IsValid (record f { focus_idx = next_idx d (length f.widgets) f.focus_idx })
          a b v.thawed)
]
