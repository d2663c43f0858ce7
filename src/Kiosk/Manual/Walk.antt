-- ===== src/Kiosk/Manual/Walk.antt =====
-- The focus goes round the widgets as on a ring.
use familyplanner.Prelude.{
  ℕ, ◌+◌, ◌-◌, ◌%◌, ◌<◌, ◌≡◌, sym, ◌∙◌, ap, arith, Bool, false, List, ℤ, pos, negsuc, pos_part,
  length, ◌==◌, if◌then◌else◌,
}
use native.Mathlib.Nat.{mod-lt}
use familyplanner.Ring.{Ring, walk, walk_place, after_steps, back_mod}
use familyplanner.Kiosk.Manual.{Focus, freeze_focused, next_idx, focus_widget}
use familyplanner.Kiosk.Manual.Index.{idx_right, idx_left}
use familyplanner.Kiosk.Manual.Laws.{length-freeze_focused}

-- The focus is on one of `n` widgets.
pub record IsFocused (n : ℕ) (f : Focus) : Type 0 where
  pub all : length f.widgets ≡ n
  pub on : ℕ
  pub here : f.focus_idx ≡ pos on
  pub within : on < n

freeze-IsFocused :
    (n k : ℕ) (f : Focus) (idx : ℤ)
    → length f.widgets ≡ n
    → idx ≡ pos k
    → k < n
    → IsFocused n (freeze_focused (record f { focus_idx = idx }))
unfolding freeze_focused
freeze-IsFocused n k f idx e h l = record {
  all = length-freeze_focused (record f { focus_idx = idx }) ∙ e;
  on = k;
  here = h;
  within = l;
}

move-IsFocused :
    (d : ℤ) (n k : ℕ) (f : Focus)
    → IsFocused n f
    → next_idx d n f.focus_idx ≡ pos k
    → k < n
    → IsFocused n (focus_widget d f) × (pos_part (focus_widget d f).focus_idx ≡ k)
unfolding focus_widget freeze_focused
move-IsFocused d n k f v h l =
    let a = v.all in
    let e : (length f.widgets == 0) ≡ false = ground arith in
    let m : next_idx d (length f.widgets) f.focus_idx ≡ pos k =
      ap (λ j. next_idx d j f.focus_idx) a ∙ h in
    rw e (freeze-IsFocused n k f (next_idx d (length f.widgets) f.focus_idx) a m l, ap pos_part m)

right-IsFocused :
    (n : ℕ) (f : Focus) (v : IsFocused n f)
    → IsFocused n (focus_widget (pos 1) f)
      × (pos_part (focus_widget (pos 1) f).focus_idx ≡ (pos_part f.focus_idx + 1) % n)
right-IsFocused n f v =
    let k = v.on in
    let w = v.within in
    let (a, b) =
      move-IsFocused (pos 1) n ((k + 1) % n) f v (ap (next_idx (pos 1) n) v.here ∙ idx_right n k w)
        (mod-lt (k + 1) (omega arith)) in
    (a, b ∙ sym (ap (λ i. (pos_part i + 1) % n) v.here))

left-IsFocused :
    (n : ℕ) (f : Focus) (v : IsFocused n f)
    → IsFocused n (focus_widget (negsuc 0) f)
      × (pos_part (focus_widget (negsuc 0) f).focus_idx ≡ (pos_part f.focus_idx + (n - 1)) % n)
left-IsFocused n f v =
    let k = v.on in
    let w = v.within in
    let (a, b) =
      move-IsFocused (negsuc 0) n (if k == 0 then n - 1 else k - 1) f v
        (ap (next_idx (negsuc 0) n) v.here ∙ idx_left n k w) (ground arith) in
    (a, b ∙ back_mod n k w ∙ sym (ap (λ i. (pos_part i + (n - 1)) % n) v.here))

pub widgets : ℕ → Ring Focus
widgets n = record {
  size = n;
  place = λ f. pos_part f.focus_idx;
  forth = focus_widget (pos 1);
  back = focus_widget (negsuc 0);
  IsOn = IsFocused n;
  place-lt = λ f v. (let w = v.within in let e = ap pos_part v.here in omega (arith, e, w));
  forth-IsOn = λ f v. (right-IsFocused n f v).0;
  back-IsOn = λ f v. (left-IsFocused n f v).0;
  forth_place = λ f v. (right-IsFocused n f v).1;
  back_place = λ f v. (left-IsFocused n f v).1;
}

-- After any focus keys to the right and to the left, in any order, the focus is on the widget that lies
-- as many places further round as there were more of the former.
pub focus_walk :
    (n : ℕ) (ds : List Bool) (f : Focus)
    → IsFocused n f
    → pos_part (walk (focus_widget (pos 1)) (focus_widget (negsuc 0)) ds f).focus_idx
      ≡ after_steps n (pos_part f.focus_idx) ds
unfolding widgets
focus_walk n ds f v = walk_place (widgets n) ds f v
