-- ===== src/Kiosk/Pip/Errors.antt =====
-- The corner while the server gives errors.
use familyplanner.Prelude.{
  ℕ, zero, suc, ◌+◌, ◌%◌, ◌<◌, ◌≡◌, refl, sym, subst, ◌∙◌, ap, Bool, true, false, Option, none,
  some, List, [], ◌∷◌, arith, length, get_elem?, ℤ,
}
use native.Mathlib.Nat.{mod-add-mod, mod-eq_of_lt, mod-lt}
use familyplanner.Ring.{forth_mod}
use familyplanner.Kiosk.Pip.{
  Item, Pip, clear_timer, set_timer, stop_players, wrap, fetch, turn, rotate, rotate_unless,
  pip_next, failed, settle, answer, timer_due, due_if, remove_at, has,
}
use familyplanner.Kiosk.Pip.Races.{IsFetching, after, timed-IsFetching}

fetch-shown : (o : Option Item) (s : Pip) → (fetch o s).shown ≡ s.shown
unfolding fetch
fetch-shown none s = refl
fetch-shown (some i) s = refl

rotate_unless-shown : (b : Bool) (i : ℤ) (s : Pip) → (rotate_unless b i s).shown ≡ s.shown
unfolding rotate_unless turn stop_players clear_timer
rotate_unless-shown true i s = refl
rotate_unless-shown false i s = fetch-shown (get_elem? s.items (wrap i (length s.items))) _

due_if-shown : (b : Bool) (k : ℕ) (s : Pip) → (due_if b k s).shown ≡ s.shown
unfolding due_if pip_next rotate
due_if-shown false k s = refl
due_if-shown true k s = rotate_unless-shown _ _ _

-- The fetch in flight fails, and the timer that the failure set runs.
pub fail_once : Pip → Pip
fail_once s = timer_due s.next_timer (answer 0 failed s)

answer-failed :
    (item : Item) (s : Pip)
    → s.pending ≡ item ∷ []
    → answer 0 failed s ≡ set_timer 10000 (record s { pending = [] })
unfolding answer settle remove_at
answer-failed item s p =
    ap (λ ps. settle (get_elem? ps 0) failed (record s { pending = remove_at 0 ps })) p

-- One failure: the timer is set to ten seconds, and the corner goes on to the next place with its view
-- unchanged.
fail_once-IsFetching :
    (items : List Item) (k : ℕ) (s : Pip)
    → IsFetching items k s
    → k < length items
    → ((answer 0 failed s).delay ≡ 10000)
      × ((fail_once s).shown ≡ s.shown)
      × IsFetching items (after (length items) k) (fail_once s)
unfolding fail_once timer_due set_timer
fail_once-IsFetching items k s f l =
    let a = answer-failed f.item s f.pending in
    let t =
      timed-IsFetching items k 10000 (record s { pending = [] }) f.built f.playlist f.at refl
        f.timers l in
    (
      ap (λ u. u.delay) a,
      due_if-shown (has s.next_timer (answer 0 failed s).timers) s.next_timer (answer 0 failed s)
          ∙ ap (λ u. u.shown) a,
      subst (λ u. IsFetching items (after (length items) k) (timer_due s.next_timer u)) (sym a) t,
    )

pub fail_all : ℕ → Pip → Pip
fail_all zero s = s
fail_all (suc n) s = fail_all n (fail_once s)

-- However many fetches fail one after another, the corner keeps the view that it shows, waits ten
-- seconds after each failure, and goes on through its playlist: after `n` failures it fetches the view
-- `n` places further round.
pub fail_all-IsFetching :
    (n : ℕ) (items : List Item) (k : ℕ) (s : Pip)
    → IsFetching items k s
    → k < length items
    → ((fail_all n s).shown ≡ s.shown)
      × IsFetching items ((k + n) % length items) (fail_all n s)
      × ((answer 0 failed (fail_all n s)).delay ≡ 10000)
unfolding fail_all
fail_all-IsFetching zero items k s f l =
    let z : k + 0 ≡ k = omega arith in
    let e : k ≡ (k + 0) % length items = sym (ap (λ i. i % length items) z ∙ mod-eq_of_lt l) in
    (refl, subst (λ j. IsFetching items j s) e f, (fail_once-IsFetching items k s f l).0)
fail_all-IsFetching (suc n) items k s f l =
    let o = fail_once-IsFetching items k s f l in
    let m = length items in
    let g = forth_mod m k l in
    let j : IsFetching items ((k + 1) % m) (fail_once s) =
      subst (λ i. IsFetching items i (fail_once s)) g o.2 in
    let r =
      fail_all-IsFetching n items ((k + 1) % m) (fail_once s) j (mod-lt (k + 1) (omega arith)) in
    let e : k + 1 + n ≡ k + suc n = omega arith in
    (
      r.0 ∙ o.1,
      subst (λ i. IsFetching items i (fail_all n (fail_once s)))
          (mod-add-mod (k + 1) m n ∙ ap (λ i. i % m) e) r.1,
      r.2,
    )
