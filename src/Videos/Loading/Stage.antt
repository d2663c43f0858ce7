-- ===== src/Videos/Loading/Stage.antt =====
-- The players of the stage, yt.js: `fpSetupVideos` with the callback of `fpVideosIn`, as one view after
-- another is put on the stage. The array that a setup returns is its number. Muting is left
-- out.
pub mod Setups
use Prim.Native.String.{String}
use familyplanner.Prelude.{
  ℕ, ◌+◌, Bool, true, false, Option, none, some, List, [], ◌∷◌, if◌then◌else◌, ◌==◌,
}
use familyplanner.Videos.{Player, videos_in}
use familyplanner.Videos.Loading.{Loader, when_ready}

-- What the script reads of a view on the stage: the lists of its widgets, and whether it advances at its end.
pub record View : Type 0 where
  pub lists : List (List String)
  pub advance_on_end : Bool

pub record Screen : Type 0 where
  pub view : View
  pub setups : ℕ  -- the number of the setup whose array is `stagePlayers`
  pub undestroyed : List (ℕ × List Player)  -- the players that `destroy` has not been called for, by their arrays
  pub framed : Option ℕ  -- the setup whose players have their frames in the elements of the view

-- The callback of setup `n`: it reads the view that is on the stage when it runs. `makePlayer` empties the
-- element of a player first (`innerHTML = ""`), so that the frame of an older player leaves the page.
pub make_players : ℕ → Bool → Screen → Screen
make_players n signals s = record s {
  undestroyed = (n, videos_in s.view.lists signals) ∷ s.undestroyed;
  framed = some n;
}

pub destroy : ℕ → List (ℕ × List Player) → List (ℕ × List Player)
destroy n [] = []
destroy n ((m, ps) ∷ rest) =
    let others = destroy n rest in if m == n then others else (m, ps) ∷ others

-- A player that is destroyed takes its frame off the page.
pub unframe : ℕ → Option ℕ → Option ℕ
unframe n none = none
unframe n (some m) = if m == n then none else some m

-- `fpSetupVideos()`
pub setup_videos : Loader Screen → Loader Screen
setup_videos l =
    let s = l.page in
    when_ready (make_players (s.setups + 1) s.view.advance_on_end) (record l {
      page = record s {
        setups = s.setups + 1;
        undestroyed = destroy s.setups s.undestroyed;
        framed = unframe s.setups s.framed;
      };
    })

-- A view is put on the stage, in place of all that is there, and set up.
pub put : View → Loader Screen → Loader Screen
put v l = setup_videos (record l { page = record l.page { view = v; framed = none } })

unfoldable pub put_all : List View → Loader Screen → Loader Screen
put_all [] l = l
put_all (v ∷ vs) l = put_all vs (put v l)
