-- ===== src/Kiosk/Watchdog/Steady.antt =====
-- A stream that keeps the watchdog quiet.
use familyplanner.Prelude.{
  ℕ, ◌+◌, ◌≤◌, ◌≡◌, refl, sym, subst, ◌∙◌, Bool, true, false, Bool-cases, inl, inr, List, [], ◌∷◌,
  if◌then◌else◌, arith, ap,
}
use familyplanner.Kiosk.State.{Effect, beat}
use familyplanner.Kiosk.Stage.Listen.{Message, version, listen, has_reload}
use familyplanner.Kiosk.Stage.Listen.Beats.{is_beat, has_beat, listen-beats}
use familyplanner.Kiosk.Stage.Listen.Reloads.{is_version, listen-reloads}
use familyplanner.Kiosk.Watchdog.{
  Watched, stamp, stamp_all, check, restart, restart_if, hear, Event, checked, got, step, run,
}

stamp_all_same : (now : ℕ) (es : List Effect) → stamp_all now es now ≡ now
unfolding stamp_all stamp
stamp_all_same now [] = refl
stamp_all_same now (beat ∷ es) = stamp_all_same now es
stamp_all_same now (_ ∷ es) = stamp_all_same now es

stamp_all-has_beat :
    (now : ℕ) (es : List Effect) (b : ℕ) → stamp_all now es b ≡ (if has_beat es then now else b)
unfolding stamp_all stamp
stamp_all-has_beat now [] b = refl
stamp_all-has_beat now (beat ∷ es) b = stamp_all_same now es
stamp_all-has_beat now (_ ∷ es) b = stamp_all-has_beat now es b

-- A message that is no version.
pub hear-last_beat :
    (now : ℕ) (m : Message) (w : Watched)
    → is_version m ≡ false
    → (hear now m w).last_beat ≡ (if is_beat m then now else w.last_beat)
unfolding hear restart_if
hear-last_beat now m w v = rw (listen-reloads m w.stage v) (
    stamp_all-has_beat now (listen m w.stage).1 w.last_beat
    ∙ ap (λ b. if b then now else w.last_beat) (listen-beats m w.stage))

-- At every check the last opening of the stream, navigate or refresh is at most 150 seconds old; `b` is
-- the time of the last one before. A version does not come before it.
abbrev pub IsSteady : ℕ → List (ℕ × Event) → Type 0
IsSteady b [] = Unit
IsSteady b ((t, checked) ∷ es) = (t ≤ b + 150000) × IsSteady b es
IsSteady b ((t, got m) ∷ es) =
    (is_version m ≡ true → b ≤ t) × IsSteady (if is_beat m then t else b) es

restart_if-reloads : (b : Bool) (t : ℕ) (w : Watched) → (restart_if b t w).reloads ≡ w.reloads
unfolding restart_if restart
restart_if-reloads true t w = refl
restart_if-reloads false t w = refl

restart_if-last_beat :
    (b : Bool) (t n : ℕ) (w : Watched) → n ≤ t → n ≤ w.last_beat → n ≤ (restart_if b t w).last_beat
unfolding restart_if restart
restart_if-last_beat true t n w h k = h
restart_if-last_beat false t n w h k = k

pub hear-reloads : (now : ℕ) (m : Message) (w : Watched) → (hear now m w).reloads ≡ w.reloads
unfolding hear
hear-reloads now m w = restart_if-reloads (has_reload (listen m w.stage).1) now (record w {
  stage = (listen m w.stage).0;
  last_beat = stamp_all now (listen m w.stage).1 w.last_beat;
})

version-beat : (m : Message) → is_version m ≡ true → is_beat m ≡ false
version-beat (version v) e = refl
version-beat _ e = absurd (cc e)

unstamped :
    (t : ℕ) (m : Message) (w : Watched)
    → is_beat m ≡ false
    → stamp_all t (listen m w.stage).1 w.last_beat ≡ w.last_beat
unstamped t m w q =
    stamp_all-has_beat t (listen m w.stage).1 w.last_beat
    ∙ ap (λ b. if b then t else w.last_beat) (listen-beats m w.stage ∙ q)

later : (c : Bool) (t b l : ℕ) → b ≤ l → (if c then t else b) ≤ (if c then t else l)
later true t b l h = omega arith
later false t b l h = h

-- The page's own beat is no older than the last of these messages.
version-since :
    (t b : ℕ) (m : Message) (w : Watched)
    → b ≤ w.last_beat
    → is_version m ≡ true
    → b ≤ t
    → (if is_beat m then t else b) ≤ (hear t m w).last_beat
unfolding hear
version-since t b m w e v h =
    let q : is_beat m ≡ false = version-beat m v in
    rw q (
      restart_if-last_beat (has_reload (listen m w.stage).1) t b
        (record w {
          stage = (listen m w.stage).0;
          last_beat = stamp_all t (listen m w.stage).1 w.last_beat;
        })
        h (subst (λ n. b ≤ n) (sym (unstamped t m w q)) e))

heard-since :
    (t b : ℕ) (m : Message) (w : Watched)
    → b ≤ w.last_beat
    → (is_version m ≡ true → b ≤ t)
    → (if is_beat m then t else b) ≤ (hear t m w).last_beat
heard-since t b m w e h = elim (Bool-cases (is_version m)) [
  | inl v ↦ version-since t b m w e v (h v)
  | inr v ↦
      subst (λ n. (if is_beat m then t else b) ≤ n) (sym (hear-last_beat t m w v))
        (later (is_beat m) t b w.last_beat e)
]

check_same : (t b : ℕ) (w : Watched) → b ≤ w.last_beat → t ≤ b + 150000 → check t w ≡ w
unfolding check
check_same t b w e h = ground arith

steady_since :
    (es : List (ℕ × Event)) (b : ℕ) (w : Watched)
    → b ≤ w.last_beat
    → IsSteady b es
    → (run es w).reloads ≡ w.reloads
unfolding run step
steady_since [] b w e h = refl
steady_since ((t, checked) ∷ es) b w e h =
    ap (λ v. (run es v).reloads) (check_same t b w e h.0) ∙ steady_since es b w e h.1
steady_since ((t, got m) ∷ es) b w e h =
    steady_since es (if is_beat m then t else b) (hear t m w) (heard-since t b m w e h.0) h.1
    ∙ hear-reloads t m w

-- As long as every check of the watchdog comes at most 150 seconds after the stream was opened or gave a
-- navigate or refresh, with whatever other messages in between, of which no version comes at an earlier
-- time than the last of these, the watchdog does not reload the page.
pub steady_stream :
    (es : List (ℕ × Event)) (b : ℕ) (w : Watched)
    → w.last_beat ≡ b
    → IsSteady b es
    → (run es w).reloads ≡ w.reloads
steady_stream es b w e h = steady_since es b w (subst (λ n. b ≤ n) (sym e) (omega arith)) h
