-- ===== src/Videos/Pass.antt =====
-- A pass of a player through its list.
use Prim.Native.String.{String}
use familyplanner.Prelude.{
  ℕ, zero, suc, ◌+◌, ◌-◌, ◌<◌, ◌≡◌, refl, sym, ◌∙◌, ap, Bool, true, false, ◌&&◌, some, List, [],
  ◌∷◌, if◌then◌else◌, ◌==◌, length, get_elem?, leb, arith,
}
use mathlib.Core.Option.{some-injective}
use familyplanner.Kiosk.Pip.Index.{wrap_next}
use familyplanner.Videos.{Player, make_player, load_video, next_video, end_if, video_ended}

-- `m` videos came to their end.
pub endings : ℕ → Player → Player
endings zero p = p
endings (suc m) p = video_ended (endings m p)

abbrev playing_at : List String → Bool → ℕ → Player
playing_at vs b k = record { videos = vs; i = k; playing = get_elem? vs k; signals = b; ended = 0 }

next-playing :
    (vs : List String) (b : Bool) (k : ℕ)
    → k < length vs
    → next_video (playing_at vs b k) ≡ playing_at vs b (if k + 1 == length vs then 0 else k + 1)
unfolding next_video load_video
next-playing vs b k l = ap (playing_at vs b) (wrap_next (length vs) k l)

ended-within :
    (vs : List String) (b : Bool) (k : ℕ)
    → k + 1 < length vs
    → video_ended (playing_at vs b k) ≡ playing_at vs b (k + 1)
unfolding video_ended end_if
ended-within vs b k l =
    let e : (leb (length vs) (k + 1) && b) ≡ false = ground arith in
    ap (λ t. end_if t (playing_at vs b k)) e
    ∙ next-playing vs b k (omega arith)
    ∙ ap (playing_at vs b) (ground arith)

endings-within :
    (m : ℕ) (vs : List String) (b : Bool)
    → m < length vs
    → endings m (playing_at vs b 0) ≡ playing_at vs b m
unfolding endings
endings-within zero vs b l = refl
endings-within (suc m) vs b l =
    ap video_ended (endings-within m vs b (omega arith))
    ∙ ended-within vs b m (omega arith)
    ∙ ap (playing_at vs b) (omega arith)

ended-last :
    (vs : List String) (b : Bool) (k : ℕ)
    → k + 1 ≡ length vs
    → video_ended (playing_at vs b k)
      ≡ (if b then record (playing_at vs b k) { ended = 1 } else playing_at vs b 0)
unfolding video_ended end_if
ended-last vs true k e =
    let t : (leb (length vs) (k + 1) && true) ≡ true = ground arith in
    ap (λ u. end_if u (playing_at vs true k)) t
ended-last vs false k e =
    let t : (leb (length vs) (k + 1) && false) ≡ false = ground arith in
    ap (λ u. end_if u (playing_at vs false k)) t
    ∙ next-playing vs false k (omega arith)
    ∙ ap (playing_at vs false) (ground arith)

made :
    (vs : List String) (b : Bool) (p : Player) → make_player vs b ≡ some p → p ≡ playing_at vs b 0
unfolding make_player
made [] b p e = cc
made (v ∷ vs) b p e = sym (some-injective _ _ e)

pass :
    (k : ℕ) (vs : List String) (b : Bool)
    → k + 1 ≡ length vs
    → (((endings (length vs) (playing_at vs b 0)).ended ≡ (if b then 1 else 0))
        × ((endings (length vs) (playing_at vs b 0)).i ≡ (if b then k else 0)))
unfolding endings
pass k vs b e =
    let n : length vs ≡ suc k = omega arith in
    let q : endings (length vs) (playing_at vs b 0)
        ≡ (if b then record (playing_at vs b k) { ended = 1 } else playing_at vs b 0) =
      ap (λ n. endings n (playing_at vs b 0)) n
      ∙ ap video_ended (endings-within k vs b (omega arith))
      ∙ ended-last vs b k e in
    (ap (λ p. p.ended) q ∙ ended_if b, ap (λ p. p.i) q ∙ i_if b)
  where
    ended_if :
        (b : Bool)
        → (if b then record (playing_at vs b k) { ended = 1 } else playing_at vs b 0).ended
          ≡ (if b then 1 else 0)
    ended_if true = refl
    ended_if false = refl

    i_if :
        (b : Bool)
        → (if b then record (playing_at vs b k) { ended = 1 } else playing_at vs b 0).i
          ≡ (if b then k else 0)
    i_if true = refl
    i_if false = refl

-- A player of a list that is not empty: after `m` of its videos ended, fewer than it has, the video at
-- place `m` plays and nothing was signalled. After all of them it has signalled once and stays at the
-- last, or, where there is nobody to signal to, is at the first again.
pub plays_list :
    (m : ℕ) (vs : List String) (b : Bool) (p : Player)
    → make_player vs b ≡ some p
    → m < length vs
    → ((endings m p).playing ≡ get_elem? vs m)
      × (((endings m p).ended ≡ 0)
          × (((endings (length vs) p).ended ≡ (if b then 1 else 0))
              × ((endings (length vs) p).i ≡ (if b then length vs - 1 else 0))))
plays_list m vs b p e l =
    let q = endings-within m vs b l in
    let r = pass (length vs - 1) vs b (omega arith) in
    rw (made vs b p e) (ap (λ p. p.playing) q, (ap (λ p. p.ended) q, r))
