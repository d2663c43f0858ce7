-- ===== src/Videos/Walk.antt =====
-- The list of a player is a ring.
use Prim.Native.String.{String}
use familyplanner.Prelude.{◌<◌, ◌≡◌, ◌∙◌, ap, arith, Bool, List, length, ℤ, pos, ◌+ℤ◌, ◌-ℤ◌}
use familyplanner.Ring.{Ring, walk, walk_place, after_steps, back_mod, forth_mod}
use familyplanner.Kiosk.Pip.{wrap}
use familyplanner.Kiosk.Pip.Index.{wrap-lt, wrap_next, wrap_prev}
use familyplanner.Videos.{Player, load_video, next_video, prev_video}

-- The player has the list `vs`, and its index is in it.
pub record IsPlaying (vs : List String) (p : Player) : Type 0 where
  pub listed : p.videos ≡ vs
  pub within : p.i < length vs

load-IsPlaying :
    (idx : ℤ) (vs : List String) (p : Player)
    → IsPlaying vs p
    → IsPlaying vs (load_video idx p) × ((load_video idx p).i ≡ wrap idx (length vs))
unfolding load_video
load-IsPlaying idx vs p v =
    let l : wrap idx (length p.videos) ≡ wrap idx (length vs) =
      ap (λ ws. wrap idx (length ws)) v.listed in
    let h = wrap-lt idx (length vs) (let x = v.within in omega arith) in
    (record { listed = v.listed; within = omega (arith, l, h) }, l)

pub videos : List String → Ring Player
unfolding next_video prev_video
videos vs = record {
  size = length vs;
  place = λ p. p.i;
  forth = next_video;
  back = prev_video;
  IsOn = IsPlaying vs;
  place-lt = λ p v. v.within;
  forth-IsOn = λ p v. (load-IsPlaying (pos p.i +ℤ pos 1) vs p v).0;
  back-IsOn = λ p v. (load-IsPlaying (pos p.i -ℤ pos 1) vs p v).0;
  forth_place = λ p v.
      (load-IsPlaying (pos p.i +ℤ pos 1) vs p v).1
      ∙ wrap_next (length vs) p.i v.within
      ∙ forth_mod (length vs) p.i v.within;
  back_place = λ p v.
      (load-IsPlaying (pos p.i -ℤ pos 1) vs p v).1
      ∙ wrap_prev (length vs) p.i v.within
      ∙ back_mod (length vs) p.i v.within;
}

-- After any calls of a controller's `next` and `prev`, in any order, the player is at the video that lies
-- as many places further round its list as there were more of the former.
pub video_walk :
    (vs : List String) (ds : List Bool) (p : Player)
    → IsPlaying vs p
    → (walk next_video prev_video ds p).i ≡ after_steps (length vs) p.i ds
unfolding videos
video_walk vs ds p v = walk_place (videos vs) ds p v
