-- ===== src/Videos.antt =====
-- The video players of a view, internal/web/assets/yt.js, with the player of YouTube as the events that it
-- sends.
pub mod Loading
mod Pass
mod Walk
use Prim.Native.String.{String}
use familyplanner.Prelude.{
  ℕ, ◌+◌, Bool, true, false, ◌&&◌, Option, none, some, List, [], ◌∷◌, length, get_elem?, leb, ℤ,
  pos, ◌+ℤ◌, ◌-ℤ◌,
}
use familyplanner.Kiosk.Pip.{wrap}

-- A controller, with the list that its closures keep.
pub record Player : Type 0 where
  pub videos : List String
  pub i : ℕ
  pub playing : Option String  -- the video that the player was told to load last
  pub signals : Bool  -- `onAllEnded` is there
  pub ended : ℕ  -- the calls of `onAllEnded`

pub make_player : List String → Bool → Option Player
make_player [] signals = none
make_player (v ∷ vs) signals =
    some (record { videos = v ∷ vs; i = 0; playing = some v; signals = signals; ended = 0 })

pub load_video : ℤ → Player → Player
load_video idx p =
    let k = wrap idx (length p.videos) in record p { i = k; playing = get_elem? p.videos k }

pub next_video : Player → Player
next_video p = load_video (pos p.i +ℤ pos 1) p

pub prev_video : Player → Player
prev_video p = load_video (pos p.i -ℤ pos 1) p

pub end_if : Bool → Player → Player
end_if true p = record p { ended = p.ended + 1 }
end_if false p = next_video p

-- `onStateChange`, for the state ENDED
pub video_ended : Player → Player
video_ended p = end_if (leb (length p.videos) (p.i + 1) && p.signals) p

pub keep : Option Player → List Player → List Player
keep none ps = ps
keep (some p) ps = p ∷ ps

-- `fpVideosIn`, for the lists of the widgets in the container
pub videos_in : List (List String) → Bool → List Player
videos_in [] signals = []
videos_in (vs ∷ vss) signals = keep (make_player vs signals) (videos_in vss signals)
