-- ===== src/Server/Cache/Kept.antt =====
-- What a row holds after any refreshes.
use Prim.Native.String.{String}
use familyplanner.Prelude.{
  ℕ, ◌≡◌, refl, sym, subst, ◌∙◌, ap, ℤ, Bool, true, false, Option, none, some, List, [], ◌∷◌,
}
use familyplanner.Server.Cache.{
  Status, status_ok, Row, Outcome, unknown_type, bad_config, fetch_failed, unencodable, fetched,
  mark_err, Widget, write, refresh_widget,
}

-- Refreshes of one widget, by the passes and by the pages that show it.
abbrev pub refresh_all : ℕ → List (ℕ × Outcome) → Widget → Widget
refresh_all global [] w = w
refresh_all global ((now, o) ∷ ps) w = refresh_all global ps (refresh_widget global now o w)

abbrev pub json_of : Outcome → Option String
json_of (fetched js ttl) = some js
json_of _ = none

abbrev pub or_else : Option String → Option String → Option String
or_else none d = d
or_else (some j) d = some j

-- The JSON that was fetched last, if any was.
abbrev pub last_json : List (ℕ × Outcome) → Option String
last_json [] = none
last_json ((now, o) ∷ ps) = or_else (last_json ps) (json_of o)

-- The last of the outcomes, if there are any after the first.
abbrev pub last_of : Outcome → List (ℕ × Outcome) → Outcome
last_of o [] = o
last_of o ((now, p) ∷ ps) = last_of p ps

abbrev pub is_fetched : Outcome → Bool
is_fetched (fetched js ttl) = true
is_fetched _ = false

abbrev pub is_fresh : Status → Bool
is_fresh status_ok = true
is_fresh _ = false

-- The row has this JSON, and is marked as fresh or not.
abbrev pub Holds : String → Bool → Option Row → Type 0
Holds j b none = ⊥
Holds j b (some r) = (r.data_json ≡ j) × (is_fresh r.status ≡ b)

abbrev pub json_from : Option String → String → String
json_from none d = d
json_from (some j) d = j

abbrev data_of : Option Row → String
data_of none = "null"
data_of (some r) = r.data_json

err-Holds :
    (now : ℕ) (msg : String) (o : Option Row) → Holds (data_of o) false (some (mark_err now msg o))
unfolding mark_err
err-Holds now msg none = (refl, refl)
err-Holds now msg (some r) = (refl, refl)

write-Holds :
    (global now : ℕ) (o : Outcome) (w : Widget)
    → Holds (json_from (json_of o) (data_of w.row)) (is_fetched o) (some (write global now o w))
unfolding write
write-Holds global now unknown_type w = err-Holds now "unknown widget type" w.row
write-Holds global now (bad_config msg) w = err-Holds now msg w.row
write-Holds global now (fetch_failed msg) w = err-Holds now msg w.row
write-Holds global now (unencodable msg) w = err-Holds now msg w.row
write-Holds global now (fetched js ttl) w = (refl, refl)

json_from-or_else :
    (a b : Option String) (d : String) → json_from (or_else a b) d ≡ json_from a (json_from b d)
json_from-or_else none b d = refl
json_from-or_else (some j) b d = refl

refresh_all-Holds :
    (global now : ℕ) (o : Outcome) (ps : List (ℕ × Outcome)) (w : Widget)
    → Holds
        (json_from (last_json ((now, o) ∷ ps)) (data_of w.row))
        (is_fetched (last_of o ps))
        (refresh_all global ((now, o) ∷ ps) w).row
unfolding refresh_widget
refresh_all-Holds global now o [] w = write-Holds global now o w
refresh_all-Holds global now o ((t, p) ∷ ps) w =
    let next = refresh_widget global now o w in
    let rest = last_json ((t, p) ∷ ps) in
    subst (λ j. Holds j (is_fetched (last_of p ps)) (refresh_all global ((t, p) ∷ ps) next).row)
      (ap (json_from rest) (write-Holds global now o w).0
        ∙ sym (json_from-or_else rest (json_of o) (data_of w.row)))
      (refresh_all-Holds global t p ps next)

-- Whatever fetches succeed and fail, a widget that has been refreshed holds the JSON that was fetched last,
-- or null where none was, and is marked as fresh if and only if its last refresh succeeded.
pub last_good :
    (global id : ℕ) (ss : List ℤ) (now : ℕ) (o : Outcome) (ps : List (ℕ × Outcome))
    → Holds
        (json_from (last_json ((now, o) ∷ ps)) "null")
        (is_fetched (last_of o ps))
        (refresh_all global ((now, o) ∷ ps) (record { id = id; sources = ss; row = none })).row
last_good global id ss now o ps =
    refresh_all-Holds global now o ps (record { id = id; sources = ss; row = none })
