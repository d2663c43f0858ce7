-- ===== src/Kiosk/Stage/Listen/Boot.antt =====
-- When a new build of the server reloads the page.
use Prim.Native.String.{String}
use text.Mathlib.Text.{◌==◌ as str_eq}
use familyplanner.Prelude.{
  ℕ, ◌+◌, ◌≡◌, refl, ◌∙◌, Bool, true, false, Option, none, some, List, [], ◌∷◌, ◌++◌, arith, ℤ,
  if◌then◌else◌, get_elem?, Bool-cases, inl, inr,
}
use familyplanner.Kiosk.State.{Request, Effect, reload}
use familyplanner.Kiosk.Stage.{
  Stage, Answer, page, failed, update_view_label, load_view, schedule_end_fallback, install, settle,
  answer, remove_at,
}
use familyplanner.Kiosk.Stage.Listen.{
  Config, Message, opened, navigate, refresh, names, version, config, arrived, fallback_due,
  on_navigate, on_refresh, on_names, on_version, set_date_fmt, set_transition, on_config,
  on_fallback, listen, run,
}

abbrev is_reload : Effect → Bool
is_reload reload = true
is_reload _ = false

-- How often the page is reloaded.
abbrev pub reloads : List Effect → ℕ
reloads [] = 0
reloads (e ∷ es) = (if is_reload e then 1 else 0) + reloads es

-- How many `version` messages name another build than `b`.
abbrev pub others : String → List Message → ℕ
others b [] = 0
others b (version v ∷ ms) = (if str_eq v b then 0 else 1) + others b ms
others b (m ∷ ms) = others b ms

reloads-append : (es fs : List Effect) → reloads (es ++ fs) ≡ reloads es + reloads fs
reloads-append [] fs = omega arith
reloads-append (e ∷ es) fs = omega (arith, reloads-append es fs)

-- A message keeps the known build, and reloads if it names another one.
record Keeps (b : String) (m : Message) (r : Stage × List Effect) : Type 0 where
  known : r.0.boot_id ≡ some b
  counted : reloads r.1 ≡ others b (m ∷ [])

module _ (b : String) where
  version-Keeps :
      (v : String) (known : Option String) (s : Stage)
      → s.boot_id ≡ known
      → known ≡ some b
      → Keeps b (version v) (on_version v known s)
  unfolding on_version
  version-Keeps v none s e k = cc
  version-Keeps v (some c) s e k =
      let c_is_b : c ≡ b = cc in
      elim (Bool-cases (str_eq v b)) [
        | inl t ↦ rw (c_is_b, t) (record { known = e ∙ k; counted = rw t })
        | inr f ↦ rw (c_is_b, f) (record { known = e ∙ k; counted = rw f })
      ]

  settle-Keeps :
      (r : Option Request) (a : Answer) (s : Stage)
      → s.boot_id ≡ some b
      → ((settle r a s).0.boot_id ≡ some b) × (reloads (settle r a s).1 ≡ 0)
  unfolding settle install schedule_end_fallback
  settle-Keeps none a s k = (k, refl)
  settle-Keeps (some r) failed s k = (k, refl)
  settle-Keeps (some r) (page p) s k = (k, refl)

  navigate-boot : (v : String) (s : Stage) → (on_navigate v s).boot_id ≡ s.boot_id
  unfolding on_navigate load_view update_view_label
  navigate-boot v s = ground arith

  refresh-boot : (s : Stage) → (on_refresh s).boot_id ≡ s.boot_id
  unfolding on_refresh load_view
  refresh-boot s = ground arith

  names-boot :
      (m : Option (List (String × String))) (s : Stage) → (on_names m s).boot_id ≡ s.boot_id
  unfolding on_names update_view_label
  names-boot none s = refl
  names-boot (some m) s = refl

  config-Keeps :
      (c : Config) (s : Stage)
      → ((on_config c s).0.boot_id ≡ s.boot_id) × (reloads (on_config c s).1 ≡ 0)
  unfolding on_config set_date_fmt set_transition
  config-Keeps c s = ground arith

  fallback-Keeps :
      (f : Option ℤ) (s : Stage)
      → ((on_fallback f s).0.boot_id ≡ s.boot_id) × (reloads (on_fallback f s).1 ≡ 0)
  unfolding on_fallback
  fallback-Keeps none s = (refl, refl)
  fallback-Keeps (some n) s = (refl, refl)

  listen-Keeps : (m : Message) (s : Stage) → s.boot_id ≡ some b → Keeps b m (listen m s)
  unfolding listen answer
  listen-Keeps (version v) s k = version-Keeps v s.boot_id s refl k
  listen-Keeps (navigate v) s k = record { known = navigate-boot v s ∙ k; counted = refl }
  listen-Keeps refresh s k = record { known = refresh-boot s ∙ k; counted = refl }
  listen-Keeps (names m) s k = record { known = names-boot m s ∙ k; counted = refl }
  listen-Keeps (config c) s k = record {
    known = (config-Keeps c s).0 ∙ k;
    counted = (config-Keeps c s).1;
  }
  listen-Keeps (arrived j a) s k =
      let (known, none_sent) =
        settle-Keeps (get_elem? s.pending j) a (record s { pending = remove_at j s.pending }) k in
      record { known = known; counted = none_sent }
  listen-Keeps fallback_due s k = record {
    known = (fallback-Keeps s.fallback s).0 ∙ k;
    counted = (fallback-Keeps s.fallback s).1;
  }
  listen-Keeps opened s k = record { known = k; counted = refl }
  listen-Keeps _ s k = record { known = k; counted = refl }

  others-cons :
      (m : Message) (ms : List Message) → others b (m ∷ ms) ≡ others b (m ∷ []) + others b ms
  others-cons (version v) ms = omega arith
  others-cons opened ms = omega arith
  others-cons _ ms = omega arith

  -- Once the page knows its build `b`, it is reloaded exactly as often as the server names another
  -- build, whatever else happens in between.
  pub reloads-run :
      (ms : List Message) (s : Stage) → s.boot_id ≡ some b → reloads (run ms s).1 ≡ others b ms
  unfolding run
  reloads-run [] s k = refl
  reloads-run (m ∷ ms) s k =
      let h = listen-Keeps m s k in
      omega (
        arith,
        reloads-append (listen m s).1 (run ms (listen m s).0).1,
        h.counted,
        reloads-run ms (listen m s).0 h.known,
        others-cons m ms,
      )
