-- ===== src/Server/Cache/Tests.antt =====
-- A calendar of two sources, one of which has an interval of its own.
use familyplanner.Prelude.{ℕ, ◌≡◌, refl, none, some, List, [], ◌∷◌, pos, arith, false}
use familyplanner.Server.Cache.{
  status_ok, Row, Outcome, fetch_failed, bad_config, fetched, Widget, visit_all,
}
use familyplanner.Server.Cache.Kept.{Holds, refresh_all, last_good}
use familyplanner.Server.Cache.Cadence.{Keeps, fetched_every_pass}

abbrev week : List (ℕ × Outcome)
week =
    (110, fetched "een" (pos 60))
    ∷ (1010, fetch_failed "timeout")
    ∷ (1020, fetched "twee" (pos 60))
    ∷ (1920, bad_config "x")
    ∷ []

last_good_example :
    Holds "twee" false
      (refresh_all 900
        ((100, fetch_failed "dns") ∷ week)
        (record { id = 4; sources = pos 0 ∷ []; row = none })).row
last_good_example = last_good 900 4 (pos 0 ∷ []) 100 (fetch_failed "dns") week

abbrev calendar : Widget
calendar = record { id = 4; sources = pos 0 ∷ pos 120 ∷ []; row = none }

abbrev old : Row
old = record { data_json = "een"; expires_at = 1120; status = status_ok; error_msg = "" }

abbrev outage : List (ℕ × Outcome)
outage = (1120, fetch_failed "dns") ∷ (1130, fetch_failed "dns") ∷ (1140, fetch_failed "dns") ∷ []

fetched_every_pass_example :
    ((visit_all 900 outage (record calendar { row = some old })).1 ≡ 3)
    × ((q : Row) × (((visit_all 900 outage (record calendar { row = some old })).0.row ≡ some q)
          × Keeps old q))
fetched_every_pass_example =
    fetched_every_pass 900 old (record calendar { row = some old }) outage refl
      (omega arith, (tt, (omega arith, (tt, (omega arith, (tt, tt))))))
