-- ===== src/Kiosk/Stage/Listen/Reloads.antt =====
-- The messages at which the page may call `location.reload()`.
use familyplanner.Prelude.{
  ◌≡◌, refl, Bool, true, false, Option, none, some, List, [], ◌∷◌, ◌++◌, ℤ, get_elem?, arith,
}
use familyplanner.Kiosk.State.{Request, Effect, reload}
use familyplanner.Kiosk.Stage.{Stage, Answer, page, failed, install, settle, answer, remove_at}
use familyplanner.Kiosk.Stage.Listen.{
  Config, Message, opened, version, config, arrived, fallback_due, on_config, set_date_fmt,
  on_fallback, listen, has_reload,
}

abbrev pub is_version : Message → Bool
is_version (version v) = true
is_version _ = false

settle-calm : (r : Option Request) (a : Answer) (s : Stage) → has_reload (settle r a s).1 ≡ false
unfolding settle install
settle-calm none a s = refl
settle-calm (some r) failed s = refl
settle-calm (some r) (page p) s = refl

config-calm : (c : Config) (s : Stage) → has_reload (on_config c s).1 ≡ false
unfolding on_config set_date_fmt
config-calm c s = ground arith

fallback-calm : (f : Option ℤ) (s : Stage) → has_reload (on_fallback f s).1 ≡ false
unfolding on_fallback
fallback-calm none s = refl
fallback-calm (some n) s = refl

-- Only a version can make the listeners reload the page.
pub listen-reloads :
    (m : Message) (s : Stage) → is_version m ≡ false → has_reload (listen m s).1 ≡ false
unfolding listen answer
listen-reloads (version v) s e = absurd (cc e)
listen-reloads (config c) s e = config-calm c s
listen-reloads (arrived j a) s e =
    settle-calm (get_elem? s.pending j) a (record s { pending = remove_at j s.pending })
listen-reloads fallback_due s e = fallback-calm s.fallback s
listen-reloads opened s e = refl
listen-reloads _ s e = refl

pub append-calm :
    (es fs : List Effect)
    → has_reload es ≡ false
    → has_reload fs ≡ false
    → has_reload (es ++ fs) ≡ false
append-calm [] fs a b = b
append-calm (reload ∷ es) fs a b = absurd (cc a)
append-calm (e ∷ es) fs a b = append-calm es fs a b
