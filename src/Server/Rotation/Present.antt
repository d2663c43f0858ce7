-- ===== src/Server/Rotation/Present.antt =====
-- The item to show, and what leaves it as it is.
use familyplanner.Prelude.{
  ℕ, zero, suc, ◌≡◌, refl, ap, ◌∙◌, Option, none, some, List, length, get_elem?, if◌then◌else◌, leb,
  ◌==◌, arith, Bool-cases, inl, inr, subst,
}
use familyplanner.Server.Rotation.{
  Item, State, new_state, set_items, in_range, current_if, current, next, prev, go_if, go_to,
  place_of, set_paused, Command, cmd_next, cmd_prev, cmd_pause, cmd_resume, cmd_goto, command,
}

-- The item to show.
abbrev pub shown : State → Option Item
shown s = (current s).1

in_range_twice :
    (n i : ℕ)
    → (if leb n (if leb n i then 0 else i) then 0 else if leb n i then 0 else i)
      ≡ (if leb n i then 0 else i)
in_range_twice n i = ground arith

in_range-current : (b : ℕ) (s : State) → (current_if b (in_range s)).1 ≡ (current_if b s).1
unfolding current_if in_range
in_range-current (suc b) s = refl
in_range-current zero s = elim (Bool-cases (length s.items == 0)) [
  | inl e ↦ rw e refl
  | inr e ↦ rw e (ap (get_elem? s.items) (in_range_twice (length s.items) s.index))
]

-- Asking for it changes nothing that can be seen.
current-kept :
    (b : ℕ) (s : State)
    → s.override ≡ b
    → ((shown (current_if b s).0 ≡ (current_if b s).1)
        × (((current_if b s).0.paused ≡ s.paused) × ((current_if b s).0.items ≡ s.items)))
unfolding current current_if in_range
current-kept (suc v) s e = (ap (λ c. (current_if c s).1) e, (refl, refl))
current-kept zero s e = elim (Bool-cases (length s.items == 0)) [
  | inl t ↦ rw t (ap (λ c. (current_if c s).1) e ∙ rw t refl, (refl, refl))
  | inr t ↦ rw t (
    ap (λ c. (current_if c (in_range s)).1) e ∙ in_range-current zero s ∙ rw t refl,
    (refl, refl),
  )
]

pub current_twice :
    (s : State)
    → ((shown (current s).0 ≡ shown s)
        × (((current s).0.paused ≡ s.paused) × ((current s).0.items ≡ s.items)))
unfolding current
current_twice s = current-kept s.override s refl

-- Nor does it to set the items that are there.
pub set_items_same :
    (its : List Item) (s : State) → s.items ≡ its → shown (set_items its s) ≡ shown s
unfolding set_items current in_range
set_items_same its s e =
    subst (λ xs. shown (set_items xs s) ≡ shown s) e (in_range-current s.override s)

pub set_items-items :
    (its : List Item) (s : State)
    → ((set_items its s).items ≡ its) × ((set_items its s).paused ≡ s.paused)
unfolding set_items
set_items-items its s = (refl, refl)

go_if-items : (v : ℕ) (o : Option ℕ) (s : State) → (go_if v o s).items ≡ s.items
unfolding go_if
go_if-items v none s = refl
go_if-items v (some i) s = refl

pub go_to-items : (v : ℕ) (s : State) → (go_to v s).items ≡ s.items
unfolding go_to
go_to-items v s = go_if-items v (place_of v s.items) s

pub new_state-items : (its : List Item) → (new_state its).items ≡ its
unfolding new_state
new_state-items its = refl

pub next-items : (s : State) → (next s).items ≡ s.items
unfolding next
next-items s = refl

pub command-items : (c : Command) (s : State) → (command c s).items ≡ s.items
unfolding command next prev set_paused go_to
command-items cmd_next s = refl
command-items cmd_prev s = refl
command-items cmd_pause s = refl
command-items cmd_resume s = refl
command-items (cmd_goto v) s = go_if-items v (place_of v s.items) s
