-- ===== src/Kiosk/Pip/Leaks.antt =====
-- The corner when two fetches are in flight, and when the server sends the same playlist again.
use familyplanner.Prelude.{
  ℕ, ◌+◌, ◌≡◌, refl, ◌∙◌, ap, Bool, true, false, not, some, List, [], ◌∷◌, arith, if◌then◌else◌, ℤ,
  pos, negsuc, eqb_ℤ,
}
use familyplanner.Kiosk.Pip.{
  Item, Content, Pip, clear, clear_timer, set_timer, ends_itself, put, pip_progress, show_if,
  dwell_ms, page, answer, on_pip, same_items, same_item, start_unless, remove,
}
use familyplanner.Kiosk.Pip.Races.{answer-first}
use text.Mathlib.TextEquality.{eq_iff}

set_twice :
    (m k : ℕ) (s : Pip)
    → s.timers ≡ []
    → ((set_timer k (set_timer m s)).timers ≡ s.next_timer ∷ (s.next_timer + 1) ∷ [])
      × ((clear_timer (set_timer k (set_timer m s))).timers ≡ s.next_timer ∷ [])
unfolding set_timer clear_timer clear remove
set_twice m k s t = rw t (refl, ground arith)

-- The answer to the oldest fetch, of a view that does not end itself.
answer-quiet :
    (item : Item) (rest : List Item) (c : Content) (s : Pip)
    → s.built ≡ true
    → s.pending ≡ item ∷ rest
    → ends_itself item c ≡ false
    → answer 0 (page c) s
      ≡ set_timer
          (dwell_ms item)
          (pip_progress (dwell_ms item) (put item c (record s { pending = rest })))
unfolding show_if
answer-quiet item rest c s b p e =
    answer-first item rest c s b p ∙ ap (λ b. show_if true b item c (record s { pending = rest })) e

-- Two fetches were in flight, and both views came and do not end themselves: two timers are to run,
-- and clearing the timer that the script holds leaves the first of them.
pub answers_leak :
    (a b : Item) (c d : Content) (s : Pip)
    → s.built ≡ true
    → s.pending ≡ a ∷ b ∷ []
    → s.timers ≡ []
    → ends_itself a c ≡ false
    → ends_itself b d ≡ false
    → ((answer 0 (page d) (answer 0 (page c) s)).timers ≡ s.next_timer ∷ (s.next_timer + 1) ∷ [])
      × (((clear_timer (answer 0 (page d) (answer 0 (page c) s))).timers ≡ s.next_timer ∷ [])
          × ((answer 0 (page d) (answer 0 (page c) s)).shown ≡ some b))
unfolding put set_timer clear_timer
answers_leak a b c d s h p t e f =
    let u =
      set_timer (dwell_ms a)
        (pip_progress (dwell_ms a) (put a c (record s { pending = b ∷ [] }))) in
    let q : answer 0 (page d) (answer 0 (page c) s)
        ≡ set_timer (dwell_ms b) (pip_progress (dwell_ms b) (put b d (record u { pending = [] }))) =
      ap (answer 0 (page d)) (answer-quiet a (b ∷ []) c s h p e) ∙ answer-quiet b [] d u h refl f in
    let w = set_twice (dwell_ms a) (dwell_ms b) s t in
    (ap (λ x. x.timers) q ∙ w.0, (ap (λ x. (clear_timer x).timers) q ∙ w.1, ap (λ x. x.shown) q))

eqb_ℤ_self : (z : ℤ) → eqb_ℤ z z ≡ true
eqb_ℤ_self (pos a) = ground arith
eqb_ℤ_self (negsuc a) = ground arith

flag_self : (b : Bool) → (if b then b else not b) ≡ true
flag_self true = refl
flag_self false = refl

same_items_self : (xs : List Item) → same_items xs xs ≡ true
unfolding same_items same_item
same_items_self [] = refl
same_items_self (x ∷ xs) =
    rw ((eq_iff x.id x.id).1 refl, eqb_ℤ_self x.dwell, flag_self x.on_end) (same_items_self xs)

-- The playlist that the corner already has changes nothing: neither its view nor its timer.
pub on_pip-same : (s : Pip) → on_pip s.items s ≡ s
unfolding on_pip start_unless
on_pip-same s = ap (λ b. start_unless b s.items s) (same_items_self s.items)
