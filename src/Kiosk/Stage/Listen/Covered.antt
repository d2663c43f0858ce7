-- ===== src/Kiosk/Stage/Listen/Covered.antt =====
-- What a screen that is to advance at its end is left to.
use Prim.Native.String.{String}
use familyplanner.Prelude.{
  Bool-cases, ◌≡◌, refl, sym, Bool, true, false, Option, none, some, List, [], ◌∷◌, ◌||◌,
  if◌then◌else◌, arith, ℤ, ◌⊎◌, inl, inr, get_elem?,
}
use text.Mathlib.Text.{◌==◌ as str_eq}
use familyplanner.Kiosk.State.{Doc, Request, Effect, control, is_positive}
use familyplanner.Kiosk.Stage.{
  Stage, Page, Answer, page, failed, update_view_label, load_view, has_slideshow_pdf, is_on_end,
  end_fallback, schedule_end_fallback, install, settle, answer,
}
use familyplanner.Kiosk.Stage.Listen.{
  Config, Message, opened, navigate, refresh, names, version, dwell, config, arrived, fallback_due,
  on_navigate, on_refresh, on_names, on_version, set_date_fmt, set_transition, on_config,
  on_fallback, listen, run,
}

-- The fallback's timer is set, to a positive time.
abbrev pub IsArmed : Option ℤ → Type 0
IsArmed none = ⊥
IsArmed (some n) = is_positive n ≡ true

-- A screen is not to advance at its end, or `scheduleEndFallback` left it to something: to its video or its
-- slideshow PDF, whether that ends or not, or to the fallback's timer.
abbrev pub IsCovered : Stage → Type 0
IsCovered s =
    (is_on_end s.doc.advance_on_end ≡ false)
    ⊎ (s.doc.video ≡ true)
    ⊎ (has_slideshow_pdf s.doc ≡ true)
    ⊎ IsArmed s.fallback

end_fallback-IsArmed :
    (d : Doc) (n : ℤ)
    → (is_on_end d.advance_on_end ≡ false)
      ⊎ (d.video ≡ true)
      ⊎ (has_slideshow_pdf d ≡ true)
      ⊎ IsArmed (end_fallback d n)
unfolding end_fallback
end_fallback-IsArmed d n = ground arith

schedule-IsCovered : (s : Stage) → IsCovered (schedule_end_fallback s)
unfolding schedule_end_fallback
schedule-IsCovered s = end_fallback-IsArmed s.doc s.last_dwell

settle-IsCovered :
    (r : Option Request) (a : Answer) (s : Stage) → IsCovered s → IsCovered (settle r a s).0
unfolding settle install
settle-IsCovered none a s c = c
settle-IsCovered (some r) failed s c = c
settle-IsCovered (some r) (page p) s c = schedule-IsCovered _

on_version-IsCovered :
    (v : String) (b : Option String) (s : Stage) → IsCovered s → IsCovered (on_version v b s).0
unfolding on_version
on_version-IsCovered v none s c = c
on_version-IsCovered v (some b) s c = c

on_names-IsCovered :
    (m : Option (List (String × String))) (s : Stage) → IsCovered s → IsCovered (on_names m s)
unfolding on_names update_view_label
on_names-IsCovered none s c = c
on_names-IsCovered (some m) s c = c

same_stage : (s t : Stage) → s.doc ≡ t.doc → s.fallback ≡ t.fallback → IsCovered s → IsCovered t
same_stage s t d f c = rw (← d, ← f) c

navigate-same :
    (v : String) (s : Stage)
    → ((on_navigate v s).doc ≡ s.doc) × ((on_navigate v s).fallback ≡ s.fallback)
unfolding on_navigate load_view update_view_label
navigate-same v s = ground arith

refresh-Same : (s : Stage) → ((on_refresh s).doc ≡ s.doc) × ((on_refresh s).fallback ≡ s.fallback)
unfolding on_refresh load_view
refresh-Same s = ground arith

config-Same :
    (c : Config) (s : Stage)
    → ((on_config c s).0.doc ≡ s.doc) × ((on_config c s).0.fallback ≡ s.fallback)
unfolding on_config set_date_fmt set_transition
config-Same c s = ground arith

-- The command "next" is among the calls.
pub sends_next : List Effect → Bool
sends_next [] = false
sends_next (control c ∷ es) = str_eq c "next" || sends_next es
sends_next (e ∷ es) = sends_next es

due :
    (f : Option ℤ) (s : Stage)
    → IsCovered s
    → IsCovered (on_fallback f s).0 ⊎ (sends_next (on_fallback f s).1 ≡ true)
unfolding on_fallback sends_next
due none s c = inl c
due (some n) s c = inr refl

listen-IsCovered :
    (m : Message) (s : Stage)
    → IsCovered s
    → IsCovered (listen m s).0 ⊎ (sends_next (listen m s).1 ≡ true)
unfolding listen answer
listen-IsCovered (navigate v) s c =
    inl (same_stage s (on_navigate v s) (sym (navigate-same v s).0) (sym (navigate-same v s).1) c)
listen-IsCovered refresh s c =
    inl (same_stage s (on_refresh s) (sym (refresh-Same s).0) (sym (refresh-Same s).1) c)
listen-IsCovered (names m) s c = inl (on_names-IsCovered m s c)
listen-IsCovered (version v) s c = inl (on_version-IsCovered v s.boot_id s c)
listen-IsCovered (config x) s c =
    inl (same_stage s (on_config x s).0 (sym (config-Same x s).0) (sym (config-Same x s).1) c)
listen-IsCovered (arrived k a) s c = inl (settle-IsCovered (get_elem? s.pending k) a _ c)
listen-IsCovered fallback_due s c = due s.fallback s c
listen-IsCovered opened s c = inl c
listen-IsCovered (dwell n) s c = inl c
listen-IsCovered _ s c = inl c

abbrev is_pending : Option Request → Bool
is_pending none = false
is_pending (some r) = true

-- The message is the answer, with a page, to a request that is in flight.
pub installs : Message → Stage → Bool
installs (arrived k (page p)) s = is_pending (get_elem? s.pending k)
installs _ s = false

-- Whether the script has asked for the next screen since the last page was put on the stage, where
-- `b` says so of the time before the message.
pub asks : Message → Stage → Bool → Bool
asks m s b = if installs m s then false else sends_next (listen m s).1 || b

pub asked : List Message → Stage → Bool → Bool
asked [] s b = b
asked (m ∷ ms) s b = asked ms (listen m s).0 (asks m s b)

settled-IsCovered :
    (r : Option Request) (p : Page) (s : Stage)
    → is_pending r ≡ true
    → IsCovered (settle r (page p) s).0
unfolding settle install
settled-IsCovered none p s e = absurd (cc e)
settled-IsCovered (some r) p s e = schedule-IsCovered _

installed-IsCovered : (m : Message) (s : Stage) → installs m s ≡ true → IsCovered (listen m s).0
unfolding installs listen answer
installed-IsCovered (arrived k (page p)) s e = settled-IsCovered (get_elem? s.pending k) p _ e
installed-IsCovered _ s e = absurd (cc e)

or_true : (a b : Bool) → b ≡ true → (a || b) ≡ true
or_true true b e = refl
or_true false b e = e

asks-IsCovered :
    (m : Message) (s : Stage) (b : Bool)
    → IsCovered s ⊎ (b ≡ true)
    → IsCovered (listen m s).0 ⊎ (asks m s b ≡ true)
unfolding asks
asks-IsCovered m s b h = elim (Bool-cases (installs m s)) [
  | inl e ↦ inl (installed-IsCovered m s e)
  | inr e ↦ elim h [
    | inr t ↦ inr (rw e (or_true (sends_next (listen m s).1) b t))
    | inl c ↦ elim (listen-IsCovered m s c) [ inl d ↦ inl d | inr t ↦ inr (rw (e, t) refl) ]
  ]
]

run-IsCovered_from :
    (ms : List Message) (s : Stage) (b : Bool)
    → IsCovered s ⊎ (b ≡ true)
    → IsCovered (run ms s).0 ⊎ (asked ms s b ≡ true)
unfolding run asked
run-IsCovered_from [] s b h = h
run-IsCovered_from (m ∷ ms) s b h =
    run-IsCovered_from ms (listen m s).0 (asks m s b) (asks-IsCovered m s b h)

-- A stage's screen is not to advance at its end, or has a video or a slideshow PDF, or the fallback's timer
-- is set to a positive time. Then, whatever messages the page hears, this is so of the screen on the stage
-- after them too, or the script has asked for the next screen since the last page was put on the stage.
pub run-IsCovered :
    (ms : List Message) (s : Stage)
    → IsCovered s
    → IsCovered (run ms s).0 ⊎ (asked ms s false ≡ true)
run-IsCovered ms s c = run-IsCovered_from ms s false (inl c)
