-- ===== src/Kiosk/Stage/Listen/Current.antt =====
-- The view that the page follows, and the dwell that it has been told.
use Prim.Native.String.{String}
use familyplanner.Prelude.{◌≡◌, refl, Option, none, some, List, ℤ, arith, get_elem?}
use familyplanner.Kiosk.State.{Request}
use familyplanner.Kiosk.Stage.{
  Stage, Answer, page, failed, install, settle, answer, remove_at, load_view, update_view_label,
  schedule_end_fallback,
}
use familyplanner.Kiosk.Stage.Listen.{
  Config, Message, opened, navigate, refresh, names, version, dwell, config, arrived, fallback_due,
  on_navigate, on_refresh, on_names, on_version, on_config, set_date_fmt, set_transition,
  on_fallback, listen,
}

navigate-current :
    (v : String) (s : Stage)
    → ((on_navigate v s).current ≡ some v) × ((on_navigate v s).last_dwell ≡ s.last_dwell)
unfolding on_navigate load_view update_view_label
navigate-current v s = (ground arith, ground arith)

-- The message leaves both as they were.
abbrev pub Same : Stage → Stage → Type 0
Same s t = (t.current ≡ s.current) × (t.last_dwell ≡ s.last_dwell)

refresh-Same : (s : Stage) → Same s (on_refresh s)
unfolding on_refresh load_view
refresh-Same s = (ground arith, ground arith)

names-Same : (m : Option (List (String × String))) (s : Stage) → Same s (on_names m s)
unfolding on_names update_view_label
names-Same none s = (refl, refl)
names-Same (some m) s = (refl, refl)

version-Same : (v : String) (b : Option String) (s : Stage) → Same s (on_version v b s).0
unfolding on_version
version-Same v none s = (refl, refl)
version-Same v (some c) s = (refl, refl)

config-Same : (c : Config) (s : Stage) → Same s (on_config c s).0
unfolding on_config set_date_fmt set_transition
config-Same c s = (ground arith, ground arith)

settle-Same : (r : Option Request) (a : Answer) (s : Stage) → Same s (settle r a s).0
unfolding settle install schedule_end_fallback
settle-Same none a s = (refl, refl)
settle-Same (some r) failed s = (refl, refl)
settle-Same (some r) (page p) s = (refl, refl)

fallback-Same : (f : Option ℤ) (s : Stage) → Same s (on_fallback f s).0
unfolding on_fallback
fallback-Same none s = (refl, refl)
fallback-Same (some n) s = (refl, refl)

pub navigate-follows :
    (v : String) (s : Stage)
    → ((listen (navigate v) s).0.current ≡ some v)
      × ((listen (navigate v) s).0.last_dwell ≡ s.last_dwell)
unfolding listen
navigate-follows v s = navigate-current v s

pub dwell-told :
    (n : ℤ) (s : Stage)
    → ((listen (dwell n) s).0.current ≡ s.current) × ((listen (dwell n) s).0.last_dwell ≡ n)
unfolding listen
dwell-told n s = (refl, refl)

-- Neither names a view nor tells a dwell.
abbrev pub IsOther : Message → Type 0
IsOther (navigate v) = ⊥
IsOther (dwell n) = ⊥
IsOther _ = Unit

pub other-Same : (m : Message) (s : Stage) → IsOther m → Same s (listen m s).0
unfolding listen answer
other-Same (navigate v) s h = absurd h
other-Same (dwell n) s h = absurd h
other-Same refresh s h = refresh-Same s
other-Same (names m) s h = names-Same m s
other-Same (version v) s h = version-Same v s.boot_id s
other-Same (config c) s h = config-Same c s
other-Same (arrived j a) s h =
    settle-Same (get_elem? s.pending j) a (record s { pending = remove_at j s.pending })
other-Same fallback_due s h = fallback-Same s.fallback s
other-Same opened s h = (refl, refl)
other-Same _ s h = (refl, refl)
