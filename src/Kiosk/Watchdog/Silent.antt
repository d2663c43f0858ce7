-- ===== src/Kiosk/Watchdog/Silent.antt =====
-- A stream that has died, or that gives nothing any more that counts as a beat.
use familyplanner.Prelude.{
  ℕ, ◌+◌, ◌-◌, ◌/◌, ◌≤◌, ◌<◌, ◌≡◌, refl, ◌∙◌, true, false, List, [], ◌∷◌, ltb, arith, ap,
  Bool-cases, inl, inr, ltb→lt,
}
use familyplanner.Kiosk.Stage.Listen.Beats.{is_beat}
use familyplanner.Kiosk.Stage.Listen.Reloads.{is_version}
use familyplanner.Kiosk.Watchdog.{Watched, restart, check, hear, Event, checked, got, step, run}
use familyplanner.Kiosk.Watchdog.Steady.{hear-last_beat, hear-reloads}

-- The checks are `n`, from the time `s` on every 30 seconds, and no message between them is a beat or a
-- version.
abbrev pub IsSilent : ℕ → ℕ → List (ℕ × Event) → Type 0
IsSilent s n [] = n ≡ 0
IsSilent s n ((t, checked) ∷ es) = (t ≡ s) × ((1 ≤ n) × IsSilent (s + 30000) (n - 1) es)
IsSilent s n ((t, got m) ∷ es) = (is_beat m ≡ false) × ((is_version m ≡ false) × IsSilent s n es)

check-late :
    (t b : ℕ) (w : Watched)
    → w.last_beat ≡ b
    → b + 150000 < t
    → ((check t w).last_beat ≡ t) × ((check t w).reloads ≡ w.reloads + 1)
unfolding check restart
check-late t b w e h =
    let c : ltb 150000 (t - w.last_beat) ≡ true = ground arith in rw c (refl, refl)

check-early :
    (t b : ℕ) (w : Watched)
    → w.last_beat ≡ b
    → t ≤ b + 150000
    → ((check t w).last_beat ≡ b) × ((check t w).reloads ≡ w.reloads)
unfolding check
check-early t b w e h =
    let c : ltb 150000 (t - w.last_beat) ≡ false = ground arith in rw c (e, refl)

-- From the last beat, at `b`, on the stream is not opened and gives no navigate, no refresh and no version,
-- whatever else it gives, also to the pages that are loaded anew; and the watchdog checks `n` times every 30
-- seconds, from `s` on. The first `(b + 180000 - s) / 30000` checks do nothing, the next one reloads the
-- page, and after that every sixth check does, since each reload gives the new page 150 seconds again.
pub silent_stream :
    (es : List (ℕ × Event)) (s n b : ℕ) (w : Watched)
    → w.last_beat ≡ b
    → IsSilent s n es
    → (run es w).reloads ≡ w.reloads + (n - (b + 180000 - s) / 30000 + 5) / 6
unfolding run step
silent_stream [] s n b w e h = omega arith
silent_stream ((t, checked) ∷ es) s n b w e h = elim (Bool-cases (ltb (b + 150000) t)) [
  | inl c ↦
      let (l, r) = check-late t b w e (ltb→lt (b + 150000) t c) in
      let ih = silent_stream es (s + 30000) (n - 1) t (check t w) l h.1.1 in
      let k = ltb→lt (b + 150000) t c in omega (arith, ih, r, h.0, h.1.0, k)
  | inr c ↦
      let k : t ≤ b + 150000 = ground (arith, c) in
      let (l, r) = check-early t b w e k in
      let ih = silent_stream es (s + 30000) (n - 1) b (check t w) l h.1.1 in
      omega (arith, ih, r, h.0, h.1.0, k)
]
silent_stream ((t, got m) ∷ es) s n b w e h =
    silent_stream es s n b (hear t m w) (hear-last_beat t m w h.1.0 ∙ rw h.0 e) h.1.1
    ∙ ap (λ k. k + (n - (b + 180000 - s) / 30000 + 5) / 6) (hear-reloads t m w)
