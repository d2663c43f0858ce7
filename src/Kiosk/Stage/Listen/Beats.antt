-- ===== src/Kiosk/Stage/Listen/Beats.antt =====
-- The messages at which the listeners call `beat()`.
use Prim.Native.String.{String}
use familyplanner.Prelude.{
  ◌≡◌, refl, Bool, true, false, Option, none, some, List, [], ◌∷◌, ℤ, Bool-cases, inl, inr,
  get_elem?, arith,
}
use text.Mathlib.Text.{◌==◌ as str_eq}
use familyplanner.Kiosk.State.{Request, Effect, beat}
use familyplanner.Kiosk.Stage.{Stage, Answer, page, failed, install, settle, answer, remove_at}
use familyplanner.Kiosk.Stage.Listen.{
  Config, Message, opened, navigate, refresh, version, config, arrived, fallback_due, on_version,
  on_config, set_date_fmt, on_fallback, listen,
}

-- The stream was opened, the server named a view, or its refresh came.
abbrev pub is_beat : Message → Bool
is_beat opened = true
is_beat (navigate v) = true
is_beat refresh = true
is_beat _ = false

abbrev pub has_beat : List Effect → Bool
has_beat [] = false
has_beat (beat ∷ es) = true
has_beat (e ∷ es) = has_beat es

version-quiet : (v : String) (b : Option String) (s : Stage) → has_beat (on_version v b s).1 ≡ false
unfolding on_version
version-quiet v none s = refl
version-quiet v (some c) s = elim (Bool-cases (str_eq v c)) [
  | inl e ↦ rw e refl
  | inr e ↦ rw e refl
]

settle-quiet : (r : Option Request) (a : Answer) (s : Stage) → has_beat (settle r a s).1 ≡ false
unfolding settle install
settle-quiet none a s = refl
settle-quiet (some r) failed s = refl
settle-quiet (some r) (page p) s = refl

config-quiet : (c : Config) (s : Stage) → has_beat (on_config c s).1 ≡ false
unfolding on_config set_date_fmt
config-quiet c s = ground arith

fallback-quiet : (f : Option ℤ) (s : Stage) → has_beat (on_fallback f s).1 ≡ false
unfolding on_fallback
fallback-quiet none s = refl
fallback-quiet (some n) s = refl

pub listen-beats : (m : Message) (s : Stage) → has_beat (listen m s).1 ≡ is_beat m
unfolding listen answer
listen-beats (version v) s = version-quiet v s.boot_id s
listen-beats (config c) s = config-quiet c s
listen-beats (arrived j a) s =
    settle-quiet (get_elem? s.pending j) a (record s { pending = remove_at j s.pending })
listen-beats fallback_due s = fallback-quiet s.fallback s
listen-beats opened s = refl
listen-beats _ s = refl
