-- ===== src/Kiosk/Keys/Pausing.antt =====
-- What the picker holds back, and the pause key.
use Prim.Native.String.{String}
use familyplanner.Prelude.{
  ◌≡◌, refl, ◌∙◌, ap, Bool, true, false, not, Option, none, some, List, [], ◌∷◌, ◌++◌,
  if◌then◌else◌, pos, negsuc,
}
use text.Mathlib.Text.{◌==◌ as str_eq}
use familyplanner.Kiosk.State.{Effect, control}
use familyplanner.Kiosk.Overlay.{Overlay, screens, on_key}
use familyplanner.Kiosk.Overlay.Picker.{on_key-takes}
use familyplanner.Kiosk.Manual.{Hooks}
use familyplanner.Kiosk.Manual.Quiet.{
  IsQuiet, one_sent, scroll_focused-IsQuiet, zoom_focused_pdf-IsQuiet,
}
use familyplanner.Kiosk.Keys.Laws.{transient-focus}
use familyplanner.Kiosk.Keys.{
  Code, arrow_left, arrow_right, arrow_up, arrow_down, escape, plus_sign, minus_sign, Press,
  Keyboard, Outcome, overlay_key, taken, ignored, sent, focused, on_ctrl, on_shift, on_plain,
  with_modifier, behind_overlay, dispatch, press, type,
}

-- While the picker is open, no key of the remote reaches the rotation, the corner, the focus, the
-- voice clock or the pause: every key is the picker's, and none is left to the browser.
pub picker_holds :
    (hooks : Hooks) (b : Bool) (p : Press) (s : Keyboard)
    → s.overlay.panel ≡ screens
    → ((press hooks b p s).effects ≡ [])
      × (((press hooks b p s).prevented ≡ true)
          × (((press hooks b p s).state.paused ≡ s.paused)
              × ((press hooks b p s).state.stage.focus ≡ s.stage.focus)))
unfolding press dispatch taken
picker_holds hooks b p s e =
    let (r, t) = on_key-takes s.stage.names (overlay_key p.code) s.overlay in
    let q : press hooks b p s ≡ taken s r.0 r.1 =
      ap (λ x. dispatch hooks b p s (on_key s.stage.names (overlay_key p.code) x s.overlay)) e
      ∙ ap (dispatch hooks b p s) t in
    (
      ap (λ o. o.effects) q,
      (
        ap (λ o. o.prevented) q,
        (ap (λ o. o.state.paused) q, ap (λ o. o.state.stage.focus) q ∙ transient-focus r.1 s.stage),
      ),
    )

-- What the commands so far left the rotation at, from `acc` on: the last pause or resume counts.
pub last : Bool → List Effect → Bool
last acc [] = acc
last acc (control c ∷ es) =
    last (if str_eq c "pause" then true else if str_eq c "resume" then false else acc) es
last acc (e ∷ es) = last acc es

last-append : (acc : Bool) (es fs : List Effect) → last acc (es ++ fs) ≡ last (last acc es) fs
unfolding last
last-append acc [] fs = refl
last-append acc (control c ∷ es) fs =
    last-append (if str_eq c "pause" then true else if str_eq c "resume" then false else acc) es fs
last-append acc (e ∷ es) fs = last-append acc es fs

last-quiet : (acc : Bool) (es : List Effect) → IsQuiet es → last acc es ≡ acc
unfolding last
last-quiet acc [] q = refl
last-quiet acc (control c ∷ es) (one_sent _ h) = cc
last-quiet acc (e ∷ es) (one_sent _ h) = refl

last-pause : (p : Bool) → last p (control (if p then "resume" else "pause") ∷ []) ≡ not p
unfolding last
last-pause true = refl
last-pause false = refl

-- A state's pause agrees with what was sent since a state whose pause was `acc`.
abbrev Agrees : Bool → Outcome → Type 0
Agrees acc o = last acc o.effects ≡ o.state.paused

on_ctrl-Agrees : (hooks : Hooks) (c : Code) (s : Keyboard) → Agrees s.paused (on_ctrl hooks c s)
unfolding on_ctrl focused sent ignored last
on_ctrl-Agrees hooks arrow_right s = refl
on_ctrl-Agrees hooks arrow_left s = refl
on_ctrl-Agrees hooks arrow_down s =
    last-quiet s.paused _ (scroll_focused-IsQuiet hooks (pos 1) s.stage.focus)
on_ctrl-Agrees hooks arrow_up s =
    last-quiet s.paused _ (scroll_focused-IsQuiet hooks (negsuc 0) s.stage.focus)
on_ctrl-Agrees hooks plus_sign s =
    last-quiet s.paused _ (zoom_focused_pdf-IsQuiet hooks (pos 1) s.stage.doc.pdf s.stage.focus)
on_ctrl-Agrees hooks minus_sign s =
    last-quiet s.paused _ (zoom_focused_pdf-IsQuiet hooks (negsuc 0) s.stage.doc.pdf s.stage.focus)
on_ctrl-Agrees hooks _ s = refl

on_shift-Agrees : (c : Code) (s : Keyboard) → Agrees s.paused (on_shift c s)
unfolding on_shift sent ignored last
on_shift-Agrees arrow_up s = refl
on_shift-Agrees arrow_down s = refl
on_shift-Agrees arrow_left s = refl
on_shift-Agrees arrow_right s = refl
on_shift-Agrees _ s = refl

on_plain-Agrees : (b : Bool) (c : Code) (s : Keyboard) → Agrees s.paused (on_plain b c s)
unfolding on_plain sent ignored last
on_plain-Agrees b arrow_left s = refl
on_plain-Agrees b arrow_right s = refl
on_plain-Agrees b arrow_up s = last-pause s.paused
on_plain-Agrees true arrow_down s = refl
on_plain-Agrees false arrow_down s = refl
on_plain-Agrees b _ s = refl

with_modifier-Agrees :
    (hooks : Hooks) (b ctrl shift : Bool) (c : Code) (s : Keyboard)
    → Agrees s.paused (with_modifier hooks b ctrl shift c s)
unfolding with_modifier
with_modifier-Agrees hooks b true shift c s = on_ctrl-Agrees hooks c s
with_modifier-Agrees hooks b false true c s = on_shift-Agrees c s
with_modifier-Agrees hooks b false false c s = on_plain-Agrees b c s

behind-Agrees :
    (hooks : Hooks) (b : Bool) (c : Code) (ctrl shift : Bool) (s : Keyboard)
    → Agrees s.paused (behind_overlay hooks b (record { code = c; ctrl = ctrl; shift = shift }) s)
unfolding behind_overlay focused sent last
behind-Agrees hooks b escape ctrl shift s = refl
behind-Agrees hooks b c ctrl shift s = with_modifier-Agrees hooks b ctrl shift c s

dispatch-Agrees :
    (hooks : Hooks) (b : Bool) (p : Press) (s : Keyboard) (r : Option (Overlay × Option String))
    → Agrees s.paused (dispatch hooks b p s r)
unfolding dispatch taken last
dispatch-Agrees hooks b p s none = behind-Agrees hooks b p.code p.ctrl p.shift s
dispatch-Agrees hooks b p s (some (o, id)) = refl

press-Agrees :
    (hooks : Hooks) (b : Bool) (p : Press) (s : Keyboard) → Agrees s.paused (press hooks b p s)
unfolding press
press-Agrees hooks b p s =
    dispatch-Agrees hooks b p s
      (on_key s.stage.names (overlay_key p.code) s.overlay.panel s.overlay)

-- Whatever keys were pressed, the pause that the script believes in is the last pause or resume that
-- it sent, and where it sent none the one it started from.
pub type-paused :
    (hooks : Hooks) (b : Bool) (ps : List Press) (s : Keyboard)
    → last s.paused (type hooks b ps s).1 ≡ (type hooks b ps s).0.paused
unfolding type last
type-paused hooks b [] s = refl
type-paused hooks b (p ∷ ps) s =
    let o = press hooks b p s in
    last-append s.paused o.effects (type hooks b ps o.state).1
    ∙ ap (λ x. last x (type hooks b ps o.state).1) (press-Agrees hooks b p s)
    ∙ type-paused hooks b ps o.state
