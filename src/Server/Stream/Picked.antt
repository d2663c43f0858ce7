-- ===== src/Server/Stream/Picked.antt =====
-- A screen that was picked on the remote.
use Prim.Native.String.{String}
use familyplanner.Prelude.{
  ℕ, zero, suc, Bool-cases, inl, inr, length, ◌==◌, ◌≡◌, ◌≢◌, refl, sym, ap, ◌∙◌, Bool, true, false,
  Option, none, some, List, [], ◌∷◌, if◌then◌else◌, pos, subst,
}
use familyplanner.Kiosk.Stage.{Stage}
use familyplanner.Kiosk.Stage.Listen.{Config}
use familyplanner.Server.Rotation.{
  Item, State, set_items, in_range, current_if, current, go_to, set_paused, command, cmd_goto,
  next as forth,
}
use familyplanner.Server.Rotation.Present.{
  shown, current_twice, set_items_same, set_items-items, command-items,
}
use familyplanner.Server.Rotation.Cursor.{goto_shows}
use familyplanner.Server.Stream.{
  Stream, shown_dwell, connect, show, commanded, signalled, forwarded, refreshed, advanced, chimed,
  signal_if, is_shown, jump_if, jump, step, Joined, Happening, served, happened, deliver, happen,
  happen_all,
}
use familyplanner.Server.Stream.Follow.{
  IsAt, IsUnedited, AreUnedited, run-Follows, happen_all-Follows,
}

if_true {ℓ} : {A : Type ℓ} (b : Bool) (x y : A) → b ≡ true → (if b then x else y) ≡ x
if_true true x y e = refl
if_true false x y e = absurd (cc e)

-- What is shown does not depend on the pause.
current_if-paused :
    (b : ℕ) (s : State) → (current_if b (record s { paused = true })).1 ≡ (current_if b s).1
unfolding current_if in_range
current_if-paused (suc b) s = refl
current_if-paused zero s = elim (Bool-cases (length s.items == 0)) [
  | inl e ↦ rw e refl
  | inr e ↦ rw e refl
]

goto-paused :
    (v : ℕ) (s : State)
    → v ≢ 0
    → (it : Item) × ((shown (set_paused true (go_to v s)) ≡ some it) × (it.view ≡ v))
unfolding current set_paused
goto-paused v s z =
    let (it, (e, w)) = goto_shows v s z in
    (it, (current_if-paused (go_to v s).override (go_to v s) ∙ e, w))

-- The rotation is paused at the item, and no command waits.
record IsHeld (its : List Item) (it : Item) (s : Stream) : Type 0 where
  listed : s.state.items ≡ its
  still : s.state.paused ≡ true
  shows : shown s.state ≡ some it
  heard : s.notified ≡ false

-- No command comes, and the playlist is not edited.
abbrev pub IsCalm : Happening → Type 0
IsCalm (served (commanded c)) = ⊥
IsCalm h = Unit

abbrev pub AreCalm : List Happening → Type 0
AreCalm [] = Unit
AreCalm (h ∷ hs) = IsCalm h × AreCalm hs

module _ (text : ℕ → String) (on_end : ℕ → Bool) where
  show-IsHeld :
      (its : List Item) (it : Item) (s : Stream)
      → IsHeld its it s
      → IsHeld its it (show text on_end s).0
  unfolding show
  show-IsHeld its it s h =
      let (c, (p, l)) = current_twice s.state in
      record { listed = l ∙ h.listed; still = p ∙ h.still; shows = c ∙ h.shows; heard = h.heard }

  signal-IsHeld :
      (b : Bool) (its : List Item) (it : Item) (s : Stream)
      → b ≡ false
      → IsHeld its it s
      → IsHeld its it (signal_if text on_end b s).0
  unfolding signal_if
  signal-IsHeld true its it s e h = absurd (cc e)
  signal-IsHeld false its it s e h = h

  unjumped-IsHeld :
      (p q : Bool) (v : ℕ) (its : List Item) (it : Item) (s : Stream)
      → p ≡ true
      → IsHeld its it s
      → IsHeld its it (jump_if text on_end p q v s).0
  unfolding jump_if
  unjumped-IsHeld true q v its it s e h = h
  unjumped-IsHeld false q v its it s e h = absurd (cc e)

  jump-IsHeld :
      (o : Option ℕ) (its : List Item) (it : Item) (s : Stream)
      → IsHeld its it s
      → IsHeld its it (jump text on_end o s).0
  unfolding jump
  jump-IsHeld none its it s h = h
  jump-IsHeld (some v) its it s h =
      unjumped-IsHeld s.state.paused (is_shown v (current s.state).1) v its it s h.still h

  refresh-IsHeld :
      (xs its : List Item) (it : Item) (s : Stream)
      → xs ≡ its
      → IsHeld its it s
      → IsHeld its it (record s { state = set_items xs s.state })
  refresh-IsHeld xs its it s e h =
      let t = set_items-items xs s.state in
      record {
        listed = t.0 ∙ e;
        still = t.1 ∙ h.still;
        shows = set_items_same xs s.state (h.listed ∙ sym e) ∙ h.shows;
        heard = h.heard;
      }

  advance-IsHeld :
      (its : List Item) (it : Item) (s : Stream)
      → IsHeld its it s
      → IsHeld its it (record s { state = if s.state.paused then s.state else forth s.state })
  advance-IsHeld its it s h =
      subst (λ t. IsHeld its it (record s { state = t }))
        (sym (if_true s.state.paused s.state (forth s.state) h.still)) h

  happen-IsHeld :
      (x : Happening) (its : List Item) (it : Item) (j : Joined)
      → IsUnedited text on_end its x
      → IsCalm x
      → IsHeld its it j.server
      → IsHeld its it (happen text on_end x j).server
  unfolding happen deliver step
  happen-IsHeld (served (commanded c)) its it j u q h = absurd q
  happen-IsHeld (served signalled) its it j u q h =
      signal-IsHeld j.server.notified its it j.server h.heard h
  happen-IsHeld (served (forwarded c)) its it j u q h = h
  happen-IsHeld (served (refreshed xs ns c)) its it j u q h = refresh-IsHeld xs its it j.server u h
  happen-IsHeld (served advanced) its it j u q h =
      show-IsHeld its it
        (record (j.server) {
          state = if j.server.state.paused then j.server.state else forth j.server.state;
        })
        (advance-IsHeld its it j.server h)
  happen-IsHeld (served (chimed o)) its it j u q h = jump-IsHeld o its it j.server h
  happen-IsHeld (happened m) its it j u q h = h

  happen_all-IsHeld :
      (xs : List Happening) (its : List Item) (it : Item) (j : Joined)
      → AreUnedited text on_end its xs
      → AreCalm xs
      → IsHeld its it j.server
      → IsHeld its it (happen_all text on_end xs j).server
  unfolding happen_all
  happen_all-IsHeld [] its it j u q h = h
  happen_all-IsHeld (x ∷ xs) its it j u q h =
      happen_all-IsHeld xs its it (happen text on_end x j) u.1 q.1
        (happen-IsHeld x its it j u.0 q.0 h)

  -- The jump, and the signal that the loop then takes.
  picked-IsHeld :
      (v : ℕ) (its : List Item) (it : Item) (j : Joined)
      → j.server.state.items ≡ its
      → shown (set_paused true (go_to v j.server.state)) ≡ some it
      → IsHeld its it
          (happen_all text on_end
            (served (commanded (cmd_goto v)) ∷ served signalled ∷ [])
            j).server
  unfolding happen_all happen step deliver signal_if command set_paused
  picked-IsHeld v its it j l e =
      show-IsHeld its it
        (record (j.server) { state = set_paused true (go_to v j.server.state); notified = false })
        (record {
          listed = command-items (cmd_goto v) j.server.state ∙ l;
          still = refl;
          shows = e;
          heard = refl;
        })

  -- A screen is picked on the remote. From when the loop has taken the signal until the next command, as long
  -- as the playlist is not edited, the page's `currentViewID` is that screen and the last dwell that it was
  -- told is 0: whatever dwells end, chimes ring and refreshes come, and whatever else happens to the page.
  pub picked_stays :
      (its : List Item) (c : Config) (ns : List (String × String)) (b : String) (k : Stage)
      (before after : List Happening) (v : ℕ)
      → AreUnedited text on_end its before
      → AreUnedited text on_end its after
      → AreCalm after
      → v ≢ 0
      → let j = happen_all text on_end before (connect text on_end its c ns b k) in
        let p =
          happen_all text on_end (served (commanded (cmd_goto v)) ∷ served signalled ∷ []) j in
        let page = (happen_all text on_end after p).page in
        (page.current ≡ some (text v)) × (page.last_dwell ≡ pos 0)
  picked_stays its c ns b k before after v u w q z =
      let j = happen_all text on_end before (connect text on_end its c ns b k) in
      let f = run-Follows text on_end its c ns b k before u in
      let p = happen_all text on_end (served (commanded (cmd_goto v)) ∷ served signalled ∷ []) j in
      let g =
        happen_all-Follows text on_end (served (commanded (cmd_goto v)) ∷ served signalled ∷ []) its
          j (tt, (tt, tt)) f in
      let a = happen_all text on_end after p in
      let (it, (e, r)) = goto-paused v j.server.state z in
      let h = happen_all-IsHeld after its it p w q (picked-IsHeld v its it j f.listed e) in
      let t =
        subst (λ o. IsAt text a.server.state.paused o a.page) h.shows
          ((happen_all-Follows text on_end after its p w g).there h.heard) in
      (
        t.0 ∙ ap (λ n. some (text n)) r,
        t.1 ∙ if_true a.server.state.paused (pos 0) (shown_dwell (some it)) h.still,
      )
