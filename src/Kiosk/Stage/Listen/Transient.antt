-- ===== src/Kiosk/Stage/Listen/Transient.antt =====
-- The transient screen.
use Prim.Native.String.{String}
use text.Mathlib.Text.{◌==◌ as str_eq}
use text.Mathlib.TextEquality.{eq_iff}
use familyplanner.Prelude.{
  ℕ, zero, suc, ◌≡◌, ◌≢◌, refl, sym, ap, subst, ◌∙◌, Bool, not, ◌&&◌, Bool-cases, inl, inr, true,
  false, Option, none, some, List, [], ◌∷◌, ◌++◌, arith, ℤ, get_elem?,
}
use familyplanner.Kiosk.State.{Request, is_empty, is_negative}
use familyplanner.Kiosk.Stage.{
  Stage, Answer, is_truthy, page, failed, label_of, update_view_label, load_view, request,
  load_transient, schedule_end_fallback, install, settle, answer, remove_at,
}
use familyplanner.Kiosk.Stage.Listen.Reloads.{is_version, listen-reloads, append-calm}
use familyplanner.Kiosk.Stage.Listen.{
  Config, Message, opened, navigate, refresh, names, version, dwell, config, mute, unmute, toggle,
  next, prev, arrived, fallback_due, differs, on_navigate, on_refresh, on_names, on_version,
  set_date_fmt, set_transition, on_config, on_fallback, listen, run, shown_id, is_playing,
  has_reload,
}

-- Every `navigate` among the messages names the view `v`, and every `version` the build `b`.
abbrev pub StaysAt : String → String → List Message → Type 0
StaysAt v b [] = Unit
StaysAt v b (navigate w ∷ ms) = (w ≡ v) × StaysAt v b ms
StaysAt v b (version x ∷ ms) = (x ≡ b) × StaysAt v b ms
StaysAt v b (m ∷ ms) = StaysAt v b ms

-- Every fetch in flight is of this view.
abbrev pub AreFor : String → List Request → Type 0
AreFor id [] = Unit
AreFor id (r ∷ rs) = (r.id ≡ id) × AreFor id rs

AreFor-append :
    (id : String) (rs qs : List Request) → AreFor id rs → AreFor id qs → AreFor id (rs ++ qs)
AreFor-append id [] qs h k = k
AreFor-append id (r ∷ rs) qs h k = (h.0, AreFor-append id rs qs h.1 k)

remove_at-AreFor :
    (id : String) (k : ℕ) (rs : List Request) → AreFor id rs → AreFor id (remove_at k rs)
unfolding remove_at
remove_at-AreFor id k [] h = h
remove_at-AreFor id zero (r ∷ rs) h = h.1
remove_at-AreFor id (suc k) (r ∷ rs) h = (h.0, remove_at-AreFor id k rs h.1)

request-AreFor : (id : String) (a : Bool) → AreFor id (request (some id) a)
request-AreFor id a = elim (Bool-cases (is_empty id)) [ inl e ↦ rw e tt | inr e ↦ rw e (refl, tt) ]

record Up (v b id : String) (s : Stage) : Type 0 where
  at : s.current ≡ some v
  over : s.override ≡ some id
  build : s.boot_id ≡ some b
  own : AreFor id s.pending

module _ (v b id : String) (full : is_empty id ≡ false) where
  same-Up :
      (s t : Stage)
      → t.current ≡ s.current
      → t.override ≡ s.override
      → t.boot_id ≡ s.boot_id
      → t.pending ≡ s.pending
      → Up v b id s
      → Up v b id t
  same-Up s t c o i p u = record {
    at = c ∙ u.at;
    over = o ∙ u.over;
    build = i ∙ u.build;
    own = subst (λ rs. AreFor id rs) (sym p) u.own;
  }

  navigate-Up : (s : Stage) → Up v b id s → Up v b id (on_navigate v s)
  unfolding on_navigate
  navigate-Up s u =
      let d : differs v s.current ≡ false = ap (differs v) u.at ∙ ground (arith, eq_iff v v) in
      let o : is_truthy s.override ≡ true = ap is_truthy u.over ∙ ground (arith, full) in
      rw (d, o) (record { at = refl; over = u.over; build = u.build; own = u.own })

  settle-Up :
      (r : Option Request) (a : Answer) (s : Stage) → Up v b id s → Up v b id (settle r a s).0
  unfolding settle install schedule_end_fallback
  settle-Up none a s u = u
  settle-Up (some r) failed s u = u
  settle-Up (some r) (page p) s u = same-Up s _ refl refl refl refl u

  load-Up :
      (o : Option String) (a : Bool) (s : Stage)
      → o ≡ some id
      → Up v b id s
      → Up v b id (load_view o a s)
  unfolding load_view
  load-Up o a s e u = record {
    at = u.at;
    over = u.over;
    build = u.build;
    own =
        AreFor-append id s.pending (request o a) u.own
          (subst (λ q. AreFor id (request q a)) (sym e) (request-AreFor id a));
  }

  shown_id-Up : (s : Stage) → Up v b id s → shown_id s ≡ some id
  shown_id-Up s u =
      let o : is_truthy s.override ≡ true = ap is_truthy u.over ∙ ground (arith, full) in
      rw o u.over

  refresh-Up : (s : Stage) → Up v b id s → Up v b id (on_refresh s)
  unfolding on_refresh
  refresh-Up s u = elim (Bool-cases (is_negative s.focus.focus_idx && not (is_playing s))) [
    | inl e ↦ rw e (load-Up (shown_id s) false s (shown_id-Up s u) u)
    | inr e ↦ rw e u
  ]

  names-Up :
      (m : Option (List (String × String))) (s : Stage) → Up v b id s → Up v b id (on_names m s)
  unfolding on_names update_view_label
  names-Up none s u = same-Up s _ refl refl refl refl u
  names-Up (some m) s u = same-Up s _ refl refl refl refl u

  -- A version of the build that the page has.
  version-Up :
      (s : Stage)
      → Up v b id s
      → ((on_version b s.boot_id s).0 ≡ s) × (has_reload (on_version b s.boot_id s).1 ≡ false)
  unfolding on_version
  version-Up s u =
      let e : str_eq b b ≡ true = ground (arith, eq_iff b b) in
      subst (λ o. ((on_version b o s).0 ≡ s) × (has_reload (on_version b o s).1 ≡ false))
        (sym u.build) (refl, rw e refl)

  config-Up : (c : Config) (s : Stage) → Up v b id s → Up v b id (on_config c s).0
  unfolding on_config set_date_fmt set_transition
  config-Up c s u = same-Up s _ (ground arith) (ground arith) (ground arith) (ground arith) u

  fallback-Up : (f : Option ℤ) (s : Stage) → Up v b id s → Up v b id (on_fallback f s).0
  unfolding on_fallback
  fallback-Up none s u = u
  fallback-Up (some n) s u = same-Up s _ refl refl refl refl u

  -- The picked screen is asked for while no other fetch is in flight.
  transient-Up :
      (s : Stage)
      → s.current ≡ some v
      → s.boot_id ≡ some b
      → s.pending ≡ []
      → Up v b id (load_transient id s)
  unfolding load_transient load_view update_view_label
  transient-Up s c i p = record {
    at = c;
    over = refl;
    build = i;
    own = subst (λ rs. AreFor id (rs ++ request (some id) true)) (sym p) (request-AreFor id true);
  }

  abbrev IsKept : List Message → Message → Stage → Type 0
  IsKept ms m s = (Up v b id (listen m s).0 × (has_reload (listen m s).1 ≡ false)) × StaysAt v b ms

  calm :
      (m : Message) (ms : List Message) (s : Stage)
      → is_version m ≡ false
      → StaysAt v b ms
      → Up v b id (listen m s).0
      → IsKept ms m s
  calm m ms s e h u = ((u, listen-reloads m s e), h)

  listen-Up :
      (m : Message) (ms : List Message) (s : Stage)
      → StaysAt v b (m ∷ ms)
      → Up v b id s
      → IsKept ms m s
  unfolding listen answer
  listen-Up (navigate w) ms s (e, h) u = calm (navigate w) ms s refl h (rw e (navigate-Up s u))
  listen-Up refresh ms s h u = calm refresh ms s refl h (refresh-Up s u)
  listen-Up (names m) ms s h u = calm (names m) ms s refl h (names-Up m s u)
  listen-Up (version w) ms s (e, h) u =
      let k = version-Up s u in rw e ((subst (λ t. Up v b id t) (sym k.0) u, k.1), h)
  listen-Up (config c) ms s h u = calm (config c) ms s refl h (config-Up c s u)
  listen-Up (arrived k a) ms s h u = calm (arrived k a) ms s refl h (
      settle-Up (get_elem? s.pending k) a (record s { pending = remove_at k s.pending })
        (record {
          at = u.at;
          over = u.over;
          build = u.build;
          own = remove_at-AreFor id k s.pending u.own;
        }))
  listen-Up fallback_due ms s h u = calm fallback_due ms s refl h (fallback-Up s.fallback s u)
  listen-Up (dwell n) ms s h u = calm (dwell n) ms s refl h (same-Up s _ refl refl refl refl u)
  listen-Up opened ms s h u = calm opened ms s refl h u
  listen-Up mute ms s h u = calm mute ms s refl h u
  listen-Up unmute ms s h u = calm unmute ms s refl h u
  listen-Up toggle ms s h u = calm toggle ms s refl h u
  listen-Up next ms s h u = calm next ms s refl h u
  listen-Up prev ms s h u = calm prev ms s refl h u

  run-Up :
      (ms : List Message) (s : Stage)
      → StaysAt v b ms
      → Up v b id s
      → Up v b id (run ms s).0 × (has_reload (run ms s).1 ≡ false)
  unfolding run
  run-Up [] s h u = (u, refl)
  run-Up (m ∷ ms) s h u =
      let ((k, e), h') = listen-Up m ms s h u in
      let (l, f) = run-Up ms (listen m s).0 h' k in
      (l, append-calm (listen m s).1 (run ms (listen m s).0).1 e f)

advance :
    (w : String) (s : Stage) (v : String)
    → s.current ≡ some v
    → w ≢ v
    → let t = on_navigate w s in
      (t.override ≡ none)
      × (t.current ≡ some w)
      × (t.label ≡ label_of s.names (some w))
      × (t.pending ≡ s.pending ++ request (some w) true)
unfolding on_navigate load_view update_view_label
advance w s v c ne = ground (arith, eq_iff w v)

-- A screen is picked while no fetch is in flight, on a page that knows its build. As long as no message
-- names another view or another build, whatever else comes, answers to fetches included: the picked screen
-- stays the one that is to be shown, every fetch in flight is of it, so that no answer puts another one on
-- the stage, and the page is not reloaded. The first `navigate` to another view drops it, sets the label to
-- that view's name and asks for that view with the animation.
pub transient_until_advance :
    (v b id : String) (s : Stage) (ms : List Message) (w : String)
    → is_empty id ≡ false
    → s.current ≡ some v
    → s.boot_id ≡ some b
    → s.pending ≡ []
    → StaysAt v b ms
    → w ≢ v
    → let t = (run ms (load_transient id s)).0 in
      let u = (listen (navigate w) t).0 in
      (t.override ≡ some id)
      × AreFor id t.pending
      × (has_reload (run ms (load_transient id s)).1 ≡ false)
      × (u.override ≡ none)
      × (u.current ≡ some w)
      × (u.label ≡ label_of t.names (some w))
      × (u.pending ≡ t.pending ++ request (some w) true)
unfolding listen
transient_until_advance v b id s ms w full c i p h ne =
    let t = (run ms (load_transient id s)).0 in
    let (u, k) = run-Up v b id full ms (load_transient id s) h (transient-Up v b id full s c i p) in
    let (a, o, d, e) = advance w t v u.at ne in (u.over, u.own, k, a, o, d, e)
