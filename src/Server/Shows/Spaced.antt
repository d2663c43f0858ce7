-- ===== src/Server/Shows/Spaced.antt =====
-- The times between the refreshes of a widget.
use familyplanner.Prelude.{
  ℕ, ◌+◌, ◌≤◌, ◌≡◌, refl, sym, subst, Bool, true, false, Option, none, some, List, [], ◌∷◌,
  if◌then◌else◌,
}
use familyplanner.Server.Shows.{
  Shown, too_recent, start_unless, bg_refresh, Event, shown, ended, log_if, step, run,
}

-- Ten seconds at least lie between two starts.
abbrev pub AreSpaced : List ℕ → Type 0
AreSpaced [] = Unit
AreSpaced (t ∷ []) = Unit
AreSpaced (t ∷ (u ∷ us)) = (u + 10000 ≤ t) × AreSpaced (u ∷ us)

abbrev first_of : List ℕ → Option ℕ
first_of [] = none
first_of (t ∷ ts) = some t

record IsSpaced (x : Shown × List ℕ) : Type 0 where
  latest : x.0.last_refresh ≡ first_of x.1
  spaced : AreSpaced x.1

held : (r b : Bool) → r ≡ true → (if r then true else b) ≡ true
held true b e = refl
held false b e = absurd (cc e)

kept :
    (b : Bool) (now : ℕ) (s : Shown) (ts : List ℕ)
    → b ≡ true
    → log_if now (start_unless b now s) ts ≡ (s, ts)
unfolding log_if start_unless
kept true now s ts e = refl
kept false now s ts e = absurd (cc e)

-- The widget is only shown.
abbrev pub AreShown : List Event → Type 0
AreShown [] = Unit
AreShown (shown now ∷ es) = AreShown es
AreShown (ended ∷ es) = ⊥

-- While a refresh runs, none is started.
pub none_meanwhile :
    (es : List Event) (x : Shown × List ℕ)
    → x.0.refreshing ≡ true
    → AreShown es
    → (run es x).1 ≡ x.1
unfolding run step bg_refresh
none_meanwhile [] x e h = refl
none_meanwhile (shown now ∷ es) (s, ts) e h =
    let k =
      kept (if s.refreshing then true else too_recent now s.last_refresh) now s ts
        (held s.refreshing (too_recent now s.last_refresh) e) in
    subst (λ y. (run es y).1 ≡ ts) (sym k) (none_meanwhile es (s, ts) e h)
none_meanwhile (ended ∷ es) x e h = absurd h
