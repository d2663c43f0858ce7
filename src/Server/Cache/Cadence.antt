-- ===== src/Server/Cache/Cadence.antt =====
-- How often a widget with sources is refreshed.
use Prim.Native.String.{String}
use familyplanner.Prelude.{
  ℕ, suc, ◌+◌, ◌≤◌, ◌<◌, ◌≡◌, refl, sym, ◌∙◌, ap, subst, Bool, true, false, Option, none, some,
  List, [], ◌∷◌, ltb, leb, length, ℤ, arith,
}
use mathlib.Core.Option.{some-injective}
use familyplanner.Server.Cache.Cap.{cap_is_least}
use familyplanner.Server.Cache.{
  Row, Outcome, unknown_type, bad_config, fetch_failed, unencodable, fetched,
  global_refresh_interval, refresh_cap, ttl_of, mark_err, Widget, write, refresh_widget, is_expired,
  visit_if, visit, visit_all,
}

-- Every pass comes before the time.
abbrev pub AreBefore : ℕ → List (ℕ × Outcome) → Type 0
AreBefore t [] = Unit
AreBefore t ((now, o) ∷ ps) = (now < t) × AreBefore t ps

passed_over :
    (b : Bool) (g now : ℕ) (o : Outcome) (w : Widget) → b ≡ false → visit_if b g now o w ≡ (w, 0)
unfolding visit_if
passed_over true g now o w e = absurd (cc e)
passed_over false g now o w e = refl

refreshed :
    (b : Bool) (g now : ℕ) (o : Outcome) (w : Widget)
    → b ≡ true
    → visit_if b g now o w ≡ (refresh_widget g now o w, 1)
unfolding visit_if
refreshed true g now o w e = refl
refreshed false g now o w e = absurd (cc e)

is_expired-leb : (now : ℕ) (r : Row) → is_expired now (some r) ≡ leb r.expires_at now
unfolding is_expired
is_expired-leb now r = refl

-- The row is not expired at any of the passes.
unexpired :
    (g : ℕ) (r : Row) (w : Widget) (ps : List (ℕ × Outcome))
    → w.row ≡ some r
    → AreBefore r.expires_at ps
    → visit_all g ps w ≡ (w, 0)
unfolding visit_all visit
unexpired g r w [] e h = refl
unexpired g r w ((now, o) ∷ ps) e h =
    let f : is_expired now w.row ≡ false =
      ap (is_expired now) e ∙ is_expired-leb now r ∙ ground (arith, h.0) in
    ap (λ v. ((visit_all g ps v.0).0, v.1 + (visit_all g ps v.0).1))
      (passed_over (is_expired now w.row) g now o w f)
    ∙ ap (λ x. (x.0, 0 + x.1)) (unexpired g r w ps e h.1)

fetched_row :
    (g now : ℕ) (js : String) (ttl : ℤ) (w : Widget)
    → 0 < refresh_cap g w.sources
    → (write g now (fetched js ttl) w).expires_at ≡ now + refresh_cap g w.sources
unfolding write ttl_of
fetched_row g now js ttl w h =
    let t : ltb 0 (refresh_cap g w.sources) ≡ true = ground (arith, h) in rw t refl

-- Once a widget with sources has been fetched, no pass in the time of the cap that follows refreshes it.
pub rested :
    (o : Option ℤ) (now : ℕ) (js : String) (ttl : ℤ) (s : ℤ) (ss : List ℤ) (w : Widget)
    (ps : List (ℕ × Outcome))
    → w.sources ≡ s ∷ ss
    → let g = global_refresh_interval o in
      AreBefore (now + refresh_cap g (s ∷ ss)) ps
      → visit_all g ps (refresh_widget g now (fetched js ttl) w)
        ≡ (refresh_widget g now (fetched js ttl) w, 0)
unfolding refresh_widget
rested o now js ttl s ss w ps e h =
    let g = global_refresh_interval o in
    let r = write g now (fetched js ttl) w in
    let c : refresh_cap g w.sources ≡ refresh_cap g (s ∷ ss) = ap (refresh_cap g) e in
    let x : r.expires_at ≡ now + refresh_cap g (s ∷ ss) =
      fetched_row g now js ttl w (subst (λ n. 0 < n) (sym c) (cap_is_least o s ss).0)
      ∙ ap (λ n. now + n) c in
    unexpired g r (refresh_widget g now (fetched js ttl) w) ps refl
      (subst (λ t. AreBefore t ps) (sym x) h)

abbrev pub IsFailed : Outcome → Type 0
IsFailed (fetched js ttl) = ⊥
IsFailed o = Unit

-- Every pass comes at the time or later, and its fetch fails.
abbrev pub AreFailing : ℕ → List (ℕ × Outcome) → Type 0
AreFailing t [] = Unit
AreFailing t ((now, o) ∷ ps) = (t ≤ now) × (IsFailed o × AreFailing t ps)

-- The row is a failed one that keeps the time and the data of the other.
abbrev pub Keeps : Row → Row → Type 0
Keeps r q = (q.expires_at ≡ r.expires_at) × (q.data_json ≡ r.data_json)

err-Keeps :
    (now : ℕ) (msg : String) (o : Option Row) (r : Row) → o ≡ some r → Keeps r (mark_err now msg o)
unfolding mark_err
err-Keeps now msg none r e = absurd (cc e)
err-Keeps now msg (some q) r e =
    (ap (λ x. x.expires_at) (some-injective q r e), ap (λ x. x.data_json) (some-injective q r e))

failed-Keeps :
    (g now : ℕ) (o : Outcome) (r : Row) (w : Widget)
    → w.row ≡ some r
    → IsFailed o
    → Keeps r (write g now o w)
unfolding write
failed-Keeps g now unknown_type r w e h = err-Keeps now "unknown widget type" w.row r e
failed-Keeps g now (bad_config m) r w e h = err-Keeps now m w.row r e
failed-Keeps g now (fetch_failed m) r w e h = err-Keeps now m w.row r e
failed-Keeps g now (unencodable m) r w e h = err-Keeps now m w.row r e
failed-Keeps g now (fetched js ttl) r w e h = absurd h

refreshed_row :
    (g now : ℕ) (o : Outcome) (w : Widget) → (refresh_widget g now o w).row ≡ some (write g now o w)
unfolding refresh_widget
refreshed_row g now o w = refl

-- Once the row of a widget has expired, every pass fetches the widget again as long as the fetches fail,
-- whatever the intervals of its sources are; and the row keeps its data.
pub fetched_every_pass :
    (g : ℕ) (r : Row) (w : Widget) (ps : List (ℕ × Outcome))
    → w.row ≡ some r
    → AreFailing r.expires_at ps
    → ((visit_all g ps w).1 ≡ length ps)
      × ((q : Row) × (((visit_all g ps w).0.row ≡ some q) × Keeps r q))
unfolding visit_all visit
fetched_every_pass g r w [] e h = (refl, (r, (e, (refl, refl))))
fetched_every_pass g r w ((now, o) ∷ ps) e h =
    let f : is_expired now w.row ≡ true =
      ap (is_expired now) e ∙ is_expired-leb now r ∙ ground (arith, h.0) in
    let v = refreshed (is_expired now w.row) g now o w f in
    let q = write g now o w in
    let k = failed-Keeps g now o r w e h.1.0 in
    let rest =
      fetched_every_pass g q (refresh_widget g now o w) ps (refreshed_row g now o w)
        (subst (λ t. AreFailing t ps) (sym k.0) h.1.1) in
    let (x, (a, b)) = rest.1 in
    subst
      (λ u.
        (u.1 + (visit_all g ps u.0).1 ≡ suc (length ps))
        × ((x : Row) × (((visit_all g ps u.0).0.row ≡ some x) × Keeps r x)))
      (sym v) (omega (arith, rest.0), (x, (a, (b.0 ∙ k.0, b.1 ∙ k.1))))
