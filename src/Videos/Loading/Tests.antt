-- ===== src/Videos/Loading/Tests.antt =====
-- Callbacks that note their numbers.
use familyplanner.Prelude.{ℕ, ◌≡◌, refl, List, [], ◌∷◌, ◌++◌}
use familyplanner.Videos.Loading.{
  Event, asked, arrived, run, fresh, step, when_ready, ready_if, load_api, load_if, push, arrive,
  arrive_if, call_hooks, flush, call_all,
}
use familyplanner.Videos.Loading.Laws.{waiting, promise_run, waits, page_of, run-refines}

abbrev note : ℕ → List ℕ → List ℕ
note n ns = ns ++ (n ∷ [])

abbrev calls : List (Event (List ℕ))
calls = asked (note 1) ∷ (asked (note 2) ∷ (arrived ∷ (asked (note 3) ∷ (arrived ∷ []))))

-- Two callbacks that were wrapped round one another make each call once.
calls_once : (run calls (fresh [])).page ≡ 1 ∷ (2 ∷ (3 ∷ []))
unfolding run step when_ready ready_if load_api load_if push arrive arrive_if call_hooks flush
    call_all
calls_once = refl

run-refines_example :
    ((run calls (fresh [])).queue ≡ waits (promise_run calls (waiting [] [])))
    × ((run calls (fresh [])).page ≡ page_of (promise_run calls (waiting [] [])))
run-refines_example = run-refines calls []
