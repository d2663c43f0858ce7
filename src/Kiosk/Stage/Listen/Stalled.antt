-- ===== src/Kiosk/Stage/Listen/Stalled.antt =====
-- The stage with a slideshow PDF on it, while the server stays at its view and nothing was asked of it.
use Prim.Native.String.{String}
use text.Mathlib.Text.{◌==◌ as str_eq}
use text.Mathlib.TextEquality.{eq_iff}
use familyplanner.Prelude.{
  ℕ, ◌≡◌, refl, sym, subst, Bool-cases, inl, inr, Bool, true, false, Option, none, some, List, [],
  ◌∷◌, ◌++◌, arith, get_elem?, if◌then◌else◌,
}
use familyplanner.Kiosk.State.{Doc, Effect, control, reload, is_empty}
use familyplanner.Kiosk.Stage.{
  Stage, Answer, update_view_label, load_view, has_slideshow_pdf, settle, answer, remove_at,
}
use familyplanner.Kiosk.Stage.Listen.{
  Config, Message, opened, navigate, refresh, names, version, dwell, config, mute, unmute, toggle,
  next, prev, arrived, fallback_due, is_playing, on_navigate, on_refresh, on_names, on_version,
  set_date_fmt, set_transition, on_config, on_fallback, listen,
}

-- The message is no `navigate` to another view.
abbrev pub AtView : String → Message → Type 0
AtView v (navigate w) = w ≡ v
AtView v _ = Unit

abbrev pub IsQuiet : Effect → Type 0
IsQuiet (control c) = ⊥
IsQuiet _ = Unit

-- No command is sent to the server.
abbrev pub NoControl : List Effect → Type 0
NoControl [] = Unit
NoControl (e ∷ es) = IsQuiet e × NoControl es

pub NoControl-append : (es fs : List Effect) → NoControl es → NoControl fs → NoControl (es ++ fs)
NoControl-append [] fs a b = b
NoControl-append (e ∷ es) fs a b = (a.0, NoControl-append es fs a.1 b)

-- The stage shows the document `d` of the view `v`, with a slideshow PDF, and waits for nothing.
pub record IsWaiting (v : String) (d : Doc) (s : Stage) : Type 0 where
  pub at : s.current ≡ some v
  pub shown : s.doc ≡ d
  pub sliding : has_slideshow_pdf s.doc ≡ true
  pub unset : s.fallback ≡ none
  pub idle : s.pending ≡ []

navigate-IsWaiting :
    (v : String) (d : Doc) (s : Stage) → IsWaiting v d s → IsWaiting v d (on_navigate v s)
unfolding on_navigate load_view update_view_label is_playing
navigate-IsWaiting v d s u = ground (arith, eq_iff v v)

refresh-Same : (v : String) (d : Doc) (s : Stage) → IsWaiting v d s → on_refresh s ≡ s
unfolding on_refresh is_playing
refresh-Same v d s u = ground arith

names-IsWaiting :
    (v : String) (d : Doc) (m : Option (List (String × String))) (s : Stage)
    → IsWaiting v d s
    → IsWaiting v d (on_names m s)
unfolding on_names update_view_label
names-IsWaiting v d none s u = record {
  at = u.at;
  shown = u.shown;
  sliding = u.sliding;
  unset = u.unset;
  idle = u.idle;
}
names-IsWaiting v d (some m) s u = record {
  at = u.at;
  shown = u.shown;
  sliding = u.sliding;
  unset = u.unset;
  idle = u.idle;
}

-- What a step of the page leaves: the stage still waits, and no command was sent.
abbrev pub Stays : String → Doc → Stage × List Effect → Type 0
Stays v d r = IsWaiting v d r.0 × NoControl r.1

version-Stays :
    (v : String) (d : Doc) (w : String) (b : Option String) (s : Stage)
    → IsWaiting v d s
    → Stays v d (on_version w b s)
unfolding on_version
version-Stays v d w none s u =
    (record { at = u.at; shown = u.shown; sliding = u.sliding; unset = u.unset; idle = u.idle }, tt)
version-Stays v d w (some b) s u = (u, reloads (str_eq w b))
  where
    reloads : (c : Bool) → NoControl (if c then [] else reload ∷ [])
    reloads true = tt
    reloads false = (tt, tt)

transition-IsWaiting :
    (v : String) (d : Doc) (o : Option Bool) (s : Stage)
    → IsWaiting v d s
    → IsWaiting v d (set_transition o s)
unfolding set_transition
transition-IsWaiting v d none s u = u
transition-IsWaiting v d (some b) s u = record {
  at = u.at;
  shown = u.shown;
  sliding = u.sliding;
  unset = u.unset;
  idle = u.idle;
}

date_fmt-Stays :
    (v : String) (d : Doc) (o : Option String) (s : Stage)
    → IsWaiting v d s
    → Stays v d (set_date_fmt o s)
unfolding set_date_fmt
date_fmt-Stays v d none s u = (u, tt)
date_fmt-Stays v d (some f) s u = elim (Bool-cases (is_empty f)) [
  | inl e ↦ rw e (u, tt)
  | inr e ↦ rw e (
    record { at = u.at; shown = u.shown; sliding = u.sliding; unset = u.unset; idle = u.idle },
    (tt, tt),
  )
]

config-Stays :
    (v : String) (d : Doc) (c : Config) (s : Stage) → IsWaiting v d s → Stays v d (on_config c s)
unfolding on_config
config-Stays v d c s u =
    let (w, q) = date_fmt-Stays v d c.date_fmt s u in
    (transition-IsWaiting v d c.transition (set_date_fmt c.date_fmt s).0 w, q)

-- There is no request that an answer could be to.
answer-Stays :
    (v : String) (d : Doc) (k : ℕ) (a : Answer) (s : Stage)
    → IsWaiting v d s
    → Stays v d (answer k a s)
unfolding answer settle remove_at
answer-Stays v d k a s u =
    subst (λ ps. Stays v d (settle (get_elem? ps k) a (record s { pending = remove_at k ps })))
      (sym u.idle)
      (record { at = u.at; shown = u.shown; sliding = u.sliding; unset = u.unset; idle = refl }, tt)

fallback-Stays :
    (v : String) (d : Doc) (s : Stage) → IsWaiting v d s → Stays v d (on_fallback s.fallback s)
unfolding on_fallback
fallback-Stays v d s u = subst (λ f. Stays v d (on_fallback f s)) (sym u.unset) (u, tt)

pub listen-Stays :
    (v : String) (d : Doc) (m : Message) (s : Stage)
    → AtView v m
    → IsWaiting v d s
    → Stays v d (listen m s)
unfolding listen
listen-Stays v d opened s h u = (u, (tt, tt))
listen-Stays v d (navigate w) s h u =
    (subst (λ x. IsWaiting v d (on_navigate x s)) (sym h) (navigate-IsWaiting v d s u), (tt, tt))
listen-Stays v d refresh s h u =
    (subst (IsWaiting v d) (sym (refresh-Same v d s u)) u, (tt, (tt, tt)))
listen-Stays v d (names m) s h u = (names-IsWaiting v d m s u, tt)
listen-Stays v d (version w) s h u = version-Stays v d w s.boot_id s u
listen-Stays v d (dwell n) s h u = (
  record { at = u.at; shown = u.shown; sliding = u.sliding; unset = u.unset; idle = u.idle },
  (tt, (tt, tt)),
)
listen-Stays v d (config c) s h u = config-Stays v d c s u
listen-Stays v d mute s h u = (u, (tt, tt))
listen-Stays v d unmute s h u = (u, (tt, tt))
listen-Stays v d toggle s h u = (u, (tt, tt))
listen-Stays v d next s h u = (u, (tt, tt))
listen-Stays v d prev s h u = (u, (tt, tt))
listen-Stays v d (arrived k a) s h u = answer-Stays v d k a s u
listen-Stays v d fallback_due s h u = fallback-Stays v d s u
