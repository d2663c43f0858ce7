-- ===== src/Kiosk/Stage/Listen.antt =====
-- The listeners of kiosk.js on the event stream, other than that of the corner's playlist.
mod Playing
mod Covered
mod Transient
mod Stale
mod Boot
mod Stalled
mod LostPdf
pub mod Beats
pub mod Current
pub mod Reloads
mod Tests
use Prim.Native.String.{String}
use familyplanner.Prelude.{
  ℕ, Bool, true, false, not, ◌&&◌, ◌||◌, Option, none, some, List, [], ◌∷◌, ◌++◌, if◌then◌else◌, ℤ,
}
use text.Mathlib.Text.{◌==◌ as str_eq}
use familyplanner.Kiosk.State.{
  Effect, beat, reload, control, load_ticker, set_up_cells, progress, redraw_clock, pip_mute,
  pip_toggle, pip_next, pip_prev, is_negative, is_empty,
}
use familyplanner.Kiosk.Stage.{
  Stage, Answer, is_truthy, update_view_label, load_view, has_slideshow_pdf, answer,
}

-- The keys of a `config` event that the stage reads; the others set style properties.
pub record Config : Type 0 where
  pub date_fmt : Option String
  pub transition : Option Bool

-- What reaches the stage: the server's events, with their data parsed (`none` where the parse fails),
-- the answer to a fetch, and the fallback's timer.
pub data Message : Type 0 where
  opened : Message
  navigate : String → Message
  refresh : Message
  names : Option (List (String × String)) → Message
  version : String → Message
  dwell : ℤ → Message
  config : Config → Message
  mute unmute toggle next prev : Message
  arrived : ℕ → Answer → Message
  fallback_due : Message

-- `e.data !== currentViewID`
abbrev pub differs : String → Option String → Bool
differs v none = true
differs v (some c) = not (str_eq v c)

-- Whether a medium plays that a reload would restart.
pub is_playing : Stage → Bool
is_playing s = s.doc.video || has_slideshow_pdf s.doc

pub on_navigate : String → Stage → Stage
on_navigate v s =
    let s' = record s { current = some v; view_attr = some v } in
    if differs v s.current
    then load_view (some v) true (update_view_label (some v) (record s' { override = none }))
    else if is_truthy s.override
    then s'
    else (let t = update_view_label (some v) s' in
        if is_playing t then t else load_view (some v) false t)

-- `overrideViewID || currentViewID`
abbrev pub shown_id : Stage → Option String
shown_id s = if is_truthy s.override then s.override else s.current

pub on_refresh : Stage → Stage
on_refresh s =
    if is_negative s.focus.focus_idx && not (is_playing s)
    then load_view (shown_id s) false s
    else s

pub on_names : Option (List (String × String)) → Stage → Stage
on_names none s = update_view_label s.current s
on_names (some m) s = update_view_label s.current (record s { names = m })

pub on_version : String → Option String → Stage → Stage × List Effect
on_version v none s = (record s { boot_id = some v }, [])
on_version v (some b) s = (s, if str_eq v b then [] else reload ∷ [])

pub set_date_fmt : Option String → Stage → Stage × List Effect
set_date_fmt none s = (s, [])
set_date_fmt (some f) s =
    if is_empty f then (s, []) else (record s { date_fmt = f }, redraw_clock ∷ [])

pub set_transition : Option Bool → Stage → Stage
set_transition none s = s
set_transition (some b) s = record s { transition_on = b }

pub on_config : Config → Stage → Stage × List Effect
on_config c s = let (t, es) = set_date_fmt c.date_fmt s in (set_transition c.transition t, es)

pub on_fallback : Option ℤ → Stage → Stage × List Effect
on_fallback none s = (s, [])
on_fallback (some n) s = (record s { fallback = none }, control "next" ∷ [])

pub listen : Message → Stage → Stage × List Effect
listen opened s = (s, beat ∷ [])
listen (navigate v) s = (on_navigate v s, beat ∷ [])
listen refresh s = (on_refresh s, beat ∷ load_ticker ∷ [])
listen (names m) s = (on_names m s, [])
listen (version v) s = on_version v s.boot_id s
listen (dwell n) s = (record s { last_dwell = n }, set_up_cells n ∷ progress n ∷ [])
listen (config c) s = on_config c s
listen mute s = (s, pip_mute ∷ [])
listen unmute s = (s, pip_mute ∷ [])
listen toggle s = (s, pip_toggle ∷ [])
listen next s = (s, pip_next ∷ [])
listen prev s = (s, pip_prev ∷ [])
listen (arrived k a) s = answer k a s
listen fallback_due s = on_fallback s.fallback s

-- `location.reload()` is among the calls. The page that called it is gone then; a run is of one page.
abbrev pub has_reload : List Effect → Bool
has_reload [] = false
has_reload (reload ∷ es) = true
has_reload (e ∷ es) = has_reload es

-- Messages one after another, with all that they made the page do.
unfoldable pub run : List Message → Stage → Stage × List Effect
run [] s = (s, [])
run (m ∷ ms) s = let (s', es) = listen m s in let (t, fs) = run ms s' in (t, es ++ fs)
