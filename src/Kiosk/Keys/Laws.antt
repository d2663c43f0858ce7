-- ===== src/Kiosk/Keys/Laws.antt =====
-- What the keys keep, what the picker holds back, and the pause key's count.
use Prim.Native.String.{String}
use familyplanner.Prelude.{
  ◌≡◌, refl, Bool, true, false, Option, none, some, List, [], ◌∷◌, pos, negsuc, inl, inr,
}
use familyplanner.Kiosk.State.{Effect}
use familyplanner.Kiosk.Overlay.{Overlay, on_key}
use familyplanner.Kiosk.Overlay.Laws.{Keeps, on_key-IsValid}
use familyplanner.Kiosk.Overlay.Laws as OverlayLaws
use familyplanner.Kiosk.Manual.{Focus, Hooks, focus_widget, scroll_focused, exit_manual}
use familyplanner.Kiosk.Manual.Laws as ManualLaws
use familyplanner.Kiosk.Manual.Laws.{focus_widget-IsValid}
use familyplanner.Kiosk.Manual.Keys.{scroll_focused-IsValid, exit_manual-IsValid}
use familyplanner.Kiosk.Stage.{Stage, load_transient, load_view, update_view_label}
use familyplanner.Kiosk.Keys.{
  Code, arrow_left, arrow_right, arrow_up, arrow_down, escape, plus_sign, minus_sign, Press,
  Keyboard, overlay_key, transient, taken, ignored, sent, focused, on_ctrl, on_shift, on_plain,
  with_modifier, behind_overlay, dispatch, press, type,
}

-- The panels are shown as `ovState` says, and the focus, its mark and its held scroller agree.
pub record IsValid (s : Keyboard) : Type 0 where
  pub overlay_ok : OverlayLaws.IsValid s.overlay
  pub focus_ok : ManualLaws.IsValid s.stage.focus

focused-IsValid :
    (f : Focus) (es : List Effect) (s : Keyboard)
    → IsValid s
    → ManualLaws.IsValid f
    → IsValid (focused f es s).state
unfolding focused sent
focused-IsValid f es s v w = record { overlay_ok = v.overlay_ok; focus_ok = w }

on_ctrl-IsValid :
    (hooks : Hooks) (c : Code) (s : Keyboard) → IsValid s → IsValid (on_ctrl hooks c s).state
unfolding on_ctrl sent ignored
on_ctrl-IsValid hooks arrow_right s v =
    focused-IsValid (focus_widget (pos 1) s.stage.focus) [] s v
      (focus_widget-IsValid (pos 1) s.stage.focus (inl refl) v.focus_ok)
on_ctrl-IsValid hooks arrow_left s v =
    focused-IsValid (focus_widget (negsuc 0) s.stage.focus) [] s v
      (focus_widget-IsValid (negsuc 0) s.stage.focus (inr refl) v.focus_ok)
on_ctrl-IsValid hooks arrow_down s v =
    let r = scroll_focused hooks (pos 1) s.stage.focus in
    focused-IsValid r.0 r.1 s v (scroll_focused-IsValid hooks (pos 1) s.stage.focus v.focus_ok)
on_ctrl-IsValid hooks arrow_up s v =
    let r = scroll_focused hooks (negsuc 0) s.stage.focus in
    focused-IsValid r.0 r.1 s v (scroll_focused-IsValid hooks (negsuc 0) s.stage.focus v.focus_ok)
on_ctrl-IsValid hooks plus_sign s v = v
on_ctrl-IsValid hooks minus_sign s v = v
on_ctrl-IsValid hooks _ s v = v

on_shift-IsValid : (c : Code) (s : Keyboard) → IsValid s → IsValid (on_shift c s).state
unfolding on_shift sent ignored
on_shift-IsValid arrow_up s v = v
on_shift-IsValid arrow_down s v = v
on_shift-IsValid arrow_left s v = v
on_shift-IsValid arrow_right s v = v
on_shift-IsValid _ s v = v

on_plain-IsValid : (b : Bool) (c : Code) (s : Keyboard) → IsValid s → IsValid (on_plain b c s).state
unfolding on_plain sent ignored
on_plain-IsValid b arrow_up s v = record { overlay_ok = v.overlay_ok; focus_ok = v.focus_ok }
on_plain-IsValid b arrow_down s v = v
on_plain-IsValid b arrow_left s v = v
on_plain-IsValid b arrow_right s v = v
on_plain-IsValid b _ s v = v

with_modifier-IsValid :
    (hooks : Hooks) (b ctrl shift : Bool) (c : Code) (s : Keyboard)
    → IsValid s
    → IsValid (with_modifier hooks b ctrl shift c s).state
unfolding with_modifier
with_modifier-IsValid hooks b true shift c s v = on_ctrl-IsValid hooks c s v
with_modifier-IsValid hooks b false true c s v = on_shift-IsValid c s v
with_modifier-IsValid hooks b false false c s v = on_plain-IsValid b c s v

behind-IsValid :
    (hooks : Hooks) (b : Bool) (c : Code) (ctrl shift : Bool) (s : Keyboard)
    → IsValid s
    → IsValid (behind_overlay hooks b (record { code = c; ctrl = ctrl; shift = shift }) s).state
unfolding behind_overlay
behind-IsValid hooks b escape ctrl shift s v =
    focused-IsValid (exit_manual s.stage.focus) [] s v
      (exit_manual-IsValid s.stage.focus v.focus_ok)
behind-IsValid hooks b c ctrl shift s v = with_modifier-IsValid hooks b ctrl shift c s v

pub transient-focus : (id : Option String) (s : Stage) → (transient id s).focus ≡ s.focus
unfolding transient load_transient load_view update_view_label
transient-focus none s = refl
transient-focus (some id) s = refl

dispatch-IsValid :
    (hooks : Hooks) (b : Bool) (p : Press) (s : Keyboard) (r : Option (Overlay × Option String))
    → IsValid s
    → Keeps s.stage.names r
    → IsValid (dispatch hooks b p s r).state
unfolding dispatch taken
dispatch-IsValid hooks b p s none v k = behind-IsValid hooks b p.code p.ctrl p.shift s v
dispatch-IsValid hooks b p s (some (o, id)) v k = record {
  overlay_ok = k;
  focus_ok = rw (transient-focus id s.stage) v.focus_ok;
}

press-IsValid :
    (hooks : Hooks) (b : Bool) (p : Press) (s : Keyboard)
    → IsValid s
    → IsValid (press hooks b p s).state
unfolding press
press-IsValid hooks b p s v =
    dispatch-IsValid hooks b p s
      (on_key s.stage.names (overlay_key p.code) s.overlay.panel s.overlay) v
      (on_key-IsValid s.stage.names (overlay_key p.code) s.overlay.panel s.overlay v.overlay_ok)

-- Any sequence of keys, with any modifiers, keeps the panels shown as `ovState` says with the
-- selection in the list, and the focus on a widget of the stage that alone is marked and held.
pub type-IsValid :
    (hooks : Hooks) (b : Bool) (ps : List Press) (s : Keyboard)
    → IsValid s
    → IsValid (type hooks b ps s).0
unfolding type
type-IsValid hooks b [] s v = v
type-IsValid hooks b (p ∷ ps) s v =
    type-IsValid hooks b ps (press hooks b p s).state (press-IsValid hooks b p s v)
