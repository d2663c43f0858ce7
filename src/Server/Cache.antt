-- ===== src/Server/Cache.antt =====
-- The cache of the widgets' data, internal/broker/broker.go: `RefreshWidget` and the pass over the expired
-- widgets, with the statements of internal/db/query/cache.sql that it uses. What a provider fetches comes
-- with the pass; times are in whole seconds, and the database takes what is written.
mod Kept
mod Cap
mod Cadence
mod Tests
use Prim.Native.String.{String}
use familyplanner.Prelude.{
  ℕ, zero, suc, ◌+◌, Bool, true, false, ◌||◌, Option, none, some, List, [], ◌∷◌, map, if◌then◌else◌,
  ltb, leb, ◌==◌, ℤ, pos,
}

pub data Status : Type 0 where
  status_ok status_stale status_error : Status

-- A row of `widget_cache`.
pub record Row : Type 0 where
  pub data_json : String
  pub expires_at : ℕ
  pub status : Status
  pub error_msg : String

-- How far `RefreshWidget` comes, with the messages of the errors, or the JSON and its time to live.
pub data Outcome : Type 0 where
  unknown_type : Outcome
  bad_config fetch_failed unencodable : String → Outcome
  fetched : String → ℤ → Outcome

-- `secs`, of the setting `refresh_interval_secs` where it is a number.
pub setting_secs : Option ℤ → ℕ
setting_secs (some (pos (suc n))) = suc n
setting_secs _ = 900

-- `globalRefreshInterval`
pub global_refresh_interval : Option ℤ → ℕ
global_refresh_interval o = if ltb (setting_secs o) 30 then 30 else setting_secs o

-- `iv`, of a source with this interval.
pub interval_of : ℕ → ℤ → ℕ
interval_of global (pos (suc n)) = suc n
interval_of global _ = global

pub best_of : ℕ → ℕ → ℕ
best_of iv best = if best == 0 || ltb iv best then iv else best

pub cap_from : ℕ → ℕ → List ℤ → ℕ
cap_from global best [] = best
cap_from global best (s ∷ ss) = cap_from global (best_of (interval_of global s) best) ss

-- `refreshCap`, of the intervals of the sources; 0 where there is none.
pub refresh_cap : ℕ → List ℤ → ℕ
refresh_cap global ss = cap_from global 0 ss

pub or_half_minute : ℤ → ℕ
or_half_minute (pos (suc n)) = suc n
or_half_minute _ = 30

pub ttl_of : ℕ → ℤ → ℕ
ttl_of cap ttl = if ltb 0 cap then cap else or_half_minute ttl

-- `markErr`: `MarkWidgetCacheStale` leaves the time of the expiry as it is.
pub mark_err : ℕ → String → Option Row → Row
mark_err now msg (some r) = record r { status = status_stale; error_msg = msg }
mark_err now msg none = record {
  data_json = "null";
  expires_at = now + 10;
  status = status_error;
  error_msg = msg;
}

pub record Widget : Type 0 where
  pub id : ℕ
  pub sources : List ℤ
  pub row : Option Row

pub write : ℕ → ℕ → Outcome → Widget → Row
write global now unknown_type w = mark_err now "unknown widget type" w.row
write global now (bad_config msg) w = mark_err now msg w.row
write global now (fetch_failed msg) w = mark_err now msg w.row
write global now (unencodable msg) w = mark_err now msg w.row
write global now (fetched js ttl) w = record {
  data_json = js;
  expires_at = now + ttl_of (refresh_cap global w.sources) ttl;
  status = status_ok;
  error_msg = "";
}

-- `RefreshWidget`
pub refresh_widget : ℕ → ℕ → Outcome → Widget → Widget
refresh_widget global now o w = record w { row = some (write global now o w) }

-- `ListExpiredWidgetIDs`, of one widget.
pub is_expired : ℕ → Option Row → Bool
is_expired now none = true
is_expired now (some r) = leb r.expires_at now

pub visit_if : Bool → ℕ → ℕ → Outcome → Widget → Widget × ℕ
visit_if true global now o w = (refresh_widget global now o w, 1)
visit_if false global now o w = (w, 0)

-- What a pass does to one widget, and how often it is refreshed.
pub visit : ℕ → ℕ → Outcome → Widget → Widget × ℕ
visit global now o w = visit_if (is_expired now w.row) global now o w

-- `refreshExpired`
pub refresh_expired : ℕ → ℕ → (ℕ → Outcome) → List Widget → List Widget
refresh_expired global now o ws = map (λ w. (visit global now (o w.id) w).0) ws

-- The passes of `Start`, on one widget.
pub visit_all : ℕ → List (ℕ × Outcome) → Widget → Widget × ℕ
visit_all global [] w = (w, 0)
visit_all global ((now, o) ∷ ps) w =
    let v = visit global now o w in let rest = visit_all global ps v.0 in (rest.0, v.1 + rest.1)
