-- ===== src/Server/Stream/Edited.antt =====
-- An edit of the playlist, followed by a chime.
use Prim.Native.String.{String}
use familyplanner.Prelude.{ℕ, ◌≡◌, refl, ap, ◌∙◌, Bool, true, false, some, List, [], ◌∷◌, arith}
use familyplanner.Kiosk.Stage.{Stage}
use familyplanner.Kiosk.Stage.Listen.{Config, refresh, names, config, run}
use familyplanner.Server.Rotation.{Item, set_items}
use familyplanner.Server.Rotation.Present.{shown, set_items-items}
use familyplanner.Server.Stream.{
  Stream, refreshed, chimed, is_shown, jump_if, jump, step, Joined, served, deliver, happen,
  happen_all,
}
use familyplanner.Server.Stream.Follow.{refreshed-Same}

is_shown_self : (it : Item) → is_shown it.view (some it) ≡ true
unfolding is_shown
is_shown_self it = ground arith

module _ (text : ℕ → String) (on_end : ℕ → Bool) where
  unjumped :
      (p q : Bool) (v : ℕ) (s : Stream) (k : Stage)
      → p ≡ false
      → q ≡ true
      → (deliver (jump_if text on_end p q v s) k).page.current ≡ k.current
  unfolding jump_if deliver run
  unjumped true q v s k a b = absurd (cc a)
  unjumped false true v s k a b = refl
  unjumped false false v s k a b = cc b

  -- Where an edit of the playlist has put the clock's view under the cursor, a chime that is to jump to that
  -- view jumps nowhere, and the page stays at the view that it followed before the edit.
  pub edited_then_chimed :
      (its : List Item) (ns : List (String × String)) (c : Config) (it : Item) (j : Joined)
      → shown (set_items its j.server.state) ≡ some it
      → j.server.state.paused ≡ false
      → (happen_all text on_end
          (served (refreshed its ns c) ∷ served (chimed (some it.view)) ∷ [])
          j).page.current
        ≡ j.page.current
  unfolding happen_all happen step deliver run jump jump_if is_shown
  edited_then_chimed its ns c it j e p =
      let k = (run (refresh ∷ config c ∷ names (some ns) ∷ []) j.page).0 in
      unjumped (set_items its j.server.state).paused
        (is_shown it.view (shown (set_items its j.server.state))) it.view
        (record (j.server) { state = set_items its j.server.state }) k
        ((set_items-items its j.server.state).1 ∙ p) (ap (is_shown it.view) e ∙ is_shown_self it)
      ∙ (refreshed-Same ns c j.page).0
