-- ===== src/Kiosk/Keys.antt =====
-- The `keydown` listener of kiosk.js: the overlays take their keys first, then Escape, then Ctrl with
-- the focus, Shift with the corner, and plain arrows with the rotation and the voice clock.
pub mod Laws
mod Pausing
mod Tests
use Prim.Native.String.{String}
use familyplanner.Prelude.{
  Bool, true, false, not, Option, none, some, List, [], ◌∷◌, ◌++◌, if◌then◌else◌, pos, negsuc,
}
use familyplanner.Kiosk.State.{
  Effect, control, pip_play_pause, pip_toggle, pip_next, pip_prev, snooze,
}
use familyplanner.Kiosk.Overlay.{Overlay, key_i, key_o, down, up, enter, shut, on_key}
use familyplanner.Kiosk.Overlay
use familyplanner.Kiosk.Manual.{
  Focus, Hooks, focus_widget, scroll_focused, exit_manual, zoom_focused_pdf,
}
use familyplanner.Kiosk.Stage.{Stage, load_transient}

-- `e.key`: the letters i and o (in either case), the arrows, Escape, Enter, the signs `+` and `=`, the
-- signs `-` and `_`, and any further key.
pub data Code : Type 0 where
  letter_i letter_o arrow_left arrow_right arrow_up arrow_down escape return plus_sign minus_sign
        other :
      Code

pub record Press : Type 0 where
  pub code : Code
  pub ctrl : Bool
  pub shift : Bool

pub record Keyboard : Type 0 where
  pub overlay : Overlay
  pub stage : Stage  -- with the focus
  pub paused : Bool  -- `kbPaused`

-- What a key did: the new state, the calls, and whether `preventDefault` was called.
pub record Outcome : Type 0 where
  pub state : Keyboard
  pub effects : List Effect
  pub prevented : Bool

-- The key as the overlays see it.
pub overlay_key : Code → Overlay.Key
overlay_key letter_i = key_i
overlay_key letter_o = key_o
overlay_key arrow_up = up
overlay_key arrow_down = down
overlay_key return = enter
overlay_key escape = shut
overlay_key _ = Overlay.Key.other

pub transient : Option String → Stage → Stage
transient none s = s
transient (some id) s = load_transient id s

-- The overlays took the key, and may have picked a screen.
pub taken : Keyboard → Overlay → Option String → Outcome
taken s o id = record {
  state = record s { overlay = o; stage = transient id s.stage };
  effects = [];
  prevented = true;
}

pub ignored : Keyboard → Outcome
ignored s = record { state = s; effects = []; prevented = false }

pub sent : List Effect → Keyboard → Outcome
sent es s = record { state = s; effects = es; prevented = true }

pub focused : Focus → List Effect → Keyboard → Outcome
focused f es s = sent es (record s { stage = record s.stage { focus = f } })

pub on_ctrl : Hooks → Code → Keyboard → Outcome
on_ctrl hooks arrow_right s = focused (focus_widget (pos 1) s.stage.focus) [] s
on_ctrl hooks arrow_left s = focused (focus_widget (negsuc 0) s.stage.focus) [] s
on_ctrl hooks arrow_down s =
    let (f, es) = scroll_focused hooks (pos 1) s.stage.focus in focused f es s
on_ctrl hooks arrow_up s =
    let (f, es) = scroll_focused hooks (negsuc 0) s.stage.focus in focused f es s
on_ctrl hooks plus_sign s = sent (zoom_focused_pdf hooks (pos 1) s.stage.doc.pdf s.stage.focus) s
on_ctrl hooks minus_sign s =
    sent (zoom_focused_pdf hooks (negsuc 0) s.stage.doc.pdf s.stage.focus) s
on_ctrl hooks _ s = ignored s

pub on_shift : Code → Keyboard → Outcome
on_shift arrow_up s = sent (pip_play_pause ∷ []) s
on_shift arrow_down s = sent (pip_toggle ∷ []) s
on_shift arrow_right s = sent (pip_next ∷ []) s
on_shift arrow_left s = sent (pip_prev ∷ []) s
on_shift _ s = ignored s

-- `snoozes`: voiceclock.js has put `fpSnooze` on the window.
pub on_plain : Bool → Code → Keyboard → Outcome
on_plain snoozes arrow_left s = sent (control "prev" ∷ []) s
on_plain snoozes arrow_right s = sent (control "next" ∷ []) s
on_plain snoozes arrow_up s =
    sent (control (if s.paused then "resume" else "pause") ∷ [])
      (record s { paused = not s.paused })
on_plain snoozes arrow_down s = sent (if snoozes then snooze ∷ [] else []) s
on_plain snoozes _ s = ignored s

pub with_modifier : Hooks → Bool → Bool → Bool → Code → Keyboard → Outcome
with_modifier hooks snoozes true shift code s = on_ctrl hooks code s
with_modifier hooks snoozes false true code s = on_shift code s
with_modifier hooks snoozes false false code s = on_plain snoozes code s

-- The listener from `if (e.key === "Escape") { exitManual()` on.
pub behind_overlay : Hooks → Bool → Press → Keyboard → Outcome
behind_overlay hooks snoozes p s = elim p.code [
  | escape ↦ focused (exit_manual s.stage.focus) [] s
  | _ ↦ with_modifier hooks snoozes p.ctrl p.shift p.code s
]

pub dispatch : Hooks → Bool → Press → Keyboard → Option (Overlay × Option String) → Outcome
dispatch hooks snoozes p s none = behind_overlay hooks snoozes p s
dispatch hooks snoozes p s (some (o, id)) = taken s o id

-- The whole listener.
pub press : Hooks → Bool → Press → Keyboard → Outcome
press hooks snoozes p s =
    dispatch hooks snoozes p s (on_key s.stage.names (overlay_key p.code) s.overlay.panel s.overlay)

-- The keys one after another: the state, and all calls in their order.
pub type : Hooks → Bool → List Press → Keyboard → Keyboard × List Effect
type hooks snoozes [] s = (s, [])
type hooks snoozes (p ∷ ps) s =
    let o = press hooks snoozes p s in
    let (s', es) = type hooks snoozes ps o.state in (s', o.effects ++ es)
