-- ===== src/Videos/Loading/Laws.antt =====
-- The loader is a promise: what is asked of it before the script is there waits, and is done once, in order.
use familyplanner.Prelude.{
  ℕ, zero, suc, ◌+◌, ◌≡◌, refl, ap, arith, map, Bool, true, false, List, [], ◌∷◌, ◌++◌,
}
use familyplanner.Videos.Loading.{
  Loader, load_if, load_api, push, ready_if, when_ready, call_all, flush, call_hooks, arrive_if,
  arrive, Event, asked, changed, arrived, step, run, fresh,
}

-- A promise on the state of a page: either calls wait for it, or it is settled.
pub data Promise (S : Type 0) : Type 0 where
  waiting : List (S → S) → S → Promise S
  settled : S → Promise S

module _ {S : Type 0} where
  -- Without a call nobody has asked for the script, which then does not come.
  pub promise_step : Event S → Promise S → Promise S
  promise_step (asked f) (waiting fs s) = waiting (fs ++ (f ∷ [])) s
  promise_step (asked f) (settled s) = settled (f s)
  promise_step (changed f) (waiting fs s) = waiting fs (f s)
  promise_step (changed f) (settled s) = settled (f s)
  promise_step arrived (waiting [] s) = waiting [] s
  promise_step arrived (waiting (f ∷ fs) s) = settled (call_all (f ∷ fs) s)
  promise_step arrived (settled s) = settled s

  pub promise_run : List (Event S) → Promise S → Promise S
  promise_run [] p = p
  promise_run (e ∷ es) p = promise_run es (promise_step e p)

  -- The loaders that stand for a promise: nothing waits once the script is there, and what waits has asked for it.
  data Stands : Loader S → Promise S → Type 0 where
    unasked : (s : S) → Stands (fresh s) (waiting [] s)
    asking :
        (n : ℕ) (f : S → S) (fs : List (S → S)) (s : S)
        → Stands
            (record {
              ready = false;
              defined = false;
              tag = true;
              hooks = suc n;
              queue = f ∷ fs;
              page = s;
            })
            (waiting (f ∷ fs) s)
    done :
        (n : ℕ) (s : S)
        → Stands
            (record { ready = true; defined = true; tag = true; hooks = n; queue = []; page = s })
            (settled s)

  -- The first callback empties the queue, and those around it find nothing.
  hooks_once :
      (n m : ℕ) (fs : List (S → S)) (s : S)
      → call_hooks
          (suc n)
          (record { ready = false; defined = true; tag = true; hooks = m; queue = fs; page = s })
        ≡ record {
          ready = true;
          defined = true;
          tag = true;
          hooks = m;
          queue = [];
          page = call_all fs s;
        }
  unfolding call_hooks flush call_all
  hooks_once zero m fs s = refl
  hooks_once (suc n) m fs s = ap flush (hooks_once n m fs s)

  hooks_idle :
      (n m : ℕ) (s : S)
      → call_hooks n
          (record { ready = true; defined = true; tag = true; hooks = m; queue = []; page = s })
        ≡ record { ready = true; defined = true; tag = true; hooks = m; queue = []; page = s }
  unfolding call_hooks flush call_all
  hooks_idle zero m s = refl
  hooks_idle (suc n) m s = ap flush (hooks_idle n m s)

  step-Stands :
      (e : Event S) (l : Loader S) (p : Promise S)
      → Stands l p
      → Stands (step e l) (promise_step e p)
  unfolding step when_ready ready_if push load_api load_if arrive arrive_if promise_step
  step-Stands (asked f) _ _ (unasked s) = asking 0 f [] s
  step-Stands (asked f) _ _ (asking n g fs s) =
      let e : suc n + 1 ≡ suc (suc n) = omega arith in rw e (asking (suc n) g (fs ++ (f ∷ [])) s)
  step-Stands (asked f) _ _ (done n s) = done n (f s)
  step-Stands (changed f) _ _ (unasked s) = unasked (f s)
  step-Stands (changed f) _ _ (asking n g fs s) = asking n g fs (f s)
  step-Stands (changed f) _ _ (done n s) = done n (f s)
  step-Stands arrived _ _ (unasked s) = unasked s
  step-Stands arrived _ _ (asking n g fs s) =
      rw (hooks_once n (suc n) (g ∷ fs) s) (done (suc n) (call_all (g ∷ fs) s))
  step-Stands arrived _ _ (done n s) = rw (hooks_idle n n s) (done n s)

  run-Stands :
      (es : List (Event S)) (l : Loader S) (p : Promise S)
      → Stands l p
      → Stands (run es l) (promise_run es p)
  unfolding run promise_run
  run-Stands [] l p h = h
  run-Stands (e ∷ es) l p h = run-Stands es (step e l) (promise_step e p) (step-Stands e l p h)

  -- What the promise has left to do, and its page.
  pub waits : Promise S → List (S → S)
  waits (waiting fs s) = fs
  waits (settled s) = []

  pub page_of : Promise S → S
  page_of (waiting fs s) = s
  page_of (settled s) = s

  Stands-queue :
      (l : Loader S) (p : Promise S) → Stands l p → (l.queue ≡ waits p) × (l.page ≡ page_of p)
  unfolding waits page_of
  Stands-queue _ _ (unasked s) = (refl, refl)
  Stands-queue _ _ (asking n f fs s) = (refl, refl)
  Stands-queue _ _ (done n s) = (refl, refl)

-- However calls, changes of the page and arrivals of the script follow one another, the loader does what a
-- promise does: it keeps the calls in their order until the script comes, makes each of them once then, and
-- makes every later call at once, however many callbacks it has wrapped round one another.
pub run-refines :
    {S : Type 0} (es : List (Event S)) (s : S)
    → ((run es (fresh s)).queue ≡ waits (promise_run es (waiting [] s)))
      × ((run es (fresh s)).page ≡ page_of (promise_run es (waiting [] s)))
run-refines es s =
    Stands-queue (run es (fresh s)) (promise_run es (waiting [] s))
      (run-Stands es (fresh s) (waiting [] s) (unasked s))

later :
    {S : Type 0} (gs : List (S → S)) (d t : Bool) (n : ℕ) (q : List (S → S)) (s : S)
    → run
        (map asked gs)
        (record { ready = true; defined = d; tag = t; hooks = n; queue = q; page = s })
      ≡ record { ready = true; defined = d; tag = t; hooks = n; queue = q; page = call_all gs s }
unfolding run step when_ready ready_if call_all
later [] d t n q s = refl
later (g ∷ gs) d t n q s = later gs d t n q (g s)

-- Where the player's script is there already when the page first asks, the call is queued and not made,
-- and it stays in the queue while all later calls are made at once.
pub first_call_lost :
    {S : Type 0} (f : S → S) (gs : List (S → S)) (s : S)
    → let m = run (asked f ∷ map asked gs) (record (fresh s) { defined = true }) in
      (m.queue ≡ f ∷ []) × (m.page ≡ call_all gs s)
unfolding run step when_ready ready_if push load_api load_if
first_call_lost f gs s =
    let e = later gs true false 0 (f ∷ []) s in (ap (λ m. m.queue) e, ap (λ m. m.page) e)
