-- ===== src/Videos/Loading/Stage/Setups.antt =====
-- Which players a stage destroys. A player whose frame has left the page counts until it is destroyed.
use familyplanner.Prelude.{
  ℕ, suc, ◌+◌, ◌<◌, ◌≤◌, length, ◌≡◌, refl, ◌∙◌, ap, arith, true, false, none, some, List, [], ◌∷◌,
  ◌++◌, ◌==◌,
}
use familyplanner.Videos.{Player, videos_in}
use familyplanner.Videos.Loading.{
  Loader, load_if, load_api, push, ready_if, when_ready, call_all, flush, call_hooks, arrive_if,
  arrive, fresh,
}
use familyplanner.Videos.Loading.Stage.{
  View, Screen, make_players, destroy, unframe, setup_videos, put, put_all,
}

-- The loader once the script is there.
abbrev pub loaded : ℕ → Screen → Loader Screen
loaded h s = record { ready = true; defined = true; tag = true; hooks = h; queue = []; page = s }

-- Setup `n` has been made for the view `v`, and its players, and the players `more`, are not destroyed.
abbrev pub shown : View → ℕ → List (ℕ × List Player) → Screen
shown v n more = record {
  view = v;
  setups = n;
  framed = some n;
  undestroyed = (n, videos_in v.lists v.advance_on_end) ∷ more;
}

put-shown :
    (h : ℕ) (v w : View) (n : ℕ) (more : List (ℕ × List Player))
    → put w (loaded h (shown v n more)) ≡ loaded h (shown w (n + 1) (destroy n more))
unfolding put setup_videos when_ready ready_if make_players destroy unframe
put-shown h v w n more = let e : (n == n) ≡ true = ground arith in rw e refl

-- Views that follow one another once the script is there: only what no setup destroys stays beside the
-- players of the last view.
put_all-shown :
    (more : List (ℕ × List Player)) (ws : List View) (w : View) (h : ℕ) (v : View) (n : ℕ)
    → ((k : ℕ) → n ≤ k → destroy k more ≡ more)
    → put_all (ws ++ (w ∷ [])) (loaded h (shown v n more))
      ≡ loaded h (shown w (length ws + (n + 1)) more)
unfolding put_all
put_all-shown more [] w h v n keeps =
    let e : n + 1 ≡ 0 + (n + 1) = omega arith in
    put-shown h v w n more
    ∙ ap (λ xs. loaded h (shown w (n + 1) xs)) (keeps n (omega arith))
    ∙ ap (λ m. loaded h (shown w m more)) e
put_all-shown more (x ∷ ws) w h v n keeps =
    let e : length ws + (n + 1 + 1) ≡ suc (length ws) + (n + 1) = omega arith in
    ap (put_all (ws ++ (w ∷ [])))
      (put-shown h v x n more ∙ ap (λ xs. loaded h (shown x (n + 1) xs)) (keeps n (omega arith)))
    ∙ put_all-shown more ws w h x (n + 1) (λ k l. keeps k (omega arith))
    ∙ ap (λ m. loaded h (shown w m more)) e

-- The page as the script begins, with the view `v` on its stage.
abbrev pub opened : View → Loader Screen
opened v = fresh (record { view = v; setups = 0; undestroyed = []; framed = none })

arrive-one : (v : View) → arrive (put v (opened v)) ≡ loaded 1 (shown v 1 [])
unfolding arrive arrive_if put setup_videos when_ready ready_if push load_api load_if make_players
    destroy call_hooks flush call_all
arrive-one v = refl

arrive-two :
    (v w : View)
    → arrive (put w (put v (opened v)))
      ≡ loaded 2 (shown w 2 ((1, videos_in w.lists v.advance_on_end) ∷ []))
unfolding arrive arrive_if put setup_videos when_ready ready_if push load_api load_if make_players
    destroy call_hooks flush call_all
arrive-two v w = refl

-- Where the script comes while the first view is on the stage, the players of every later view take the
-- place of all those before: only the last view's are not destroyed.
pub one_view_undestroyed :
    (v : View) (ws : List View) (w : View)
    → (put_all (ws ++ (w ∷ [])) (arrive (put v (opened v)))).page.undestroyed
      ≡ (length ws + 2, videos_in w.lists w.advance_on_end) ∷ []
unfolding destroy
one_view_undestroyed v ws w =
    ap (λ l. (put_all (ws ++ (w ∷ [])) l).page.undestroyed) (arrive-one v)
    ∙ ap (λ l. l.page.undestroyed) (put_all-shown [] ws w 1 v 1 (λ k l. refl))

-- Where the view changes once before the script comes, the second view gets two sets of players, and the
-- first of them, which acts as the first view asked, is never destroyed, whatever views follow; the frames on
-- the page are those of the last set.
two_sets_undestroyed :
    (v w : View) (ws : List View) (x : View)
    → let page = (put_all (ws ++ (x ∷ [])) (arrive (put w (put v (opened v))))).page in
      (page.undestroyed
        ≡ (length ws + 3, videos_in x.lists x.advance_on_end)
          ∷ ((1, videos_in w.lists v.advance_on_end) ∷ []))
      × (page.framed ≡ some (length ws + 3))
unfolding destroy
two_sets_undestroyed v w ws x =
    let old = videos_in w.lists v.advance_on_end in
    let e =
      ap (put_all (ws ++ (x ∷ []))) (arrive-two v w)
      ∙ put_all-shown ((1, old) ∷ []) ws x 2 w 2 (λ k l. other k old (omega arith)) in
    (ap (λ l. l.page.undestroyed) e, ap (λ l. l.page.framed) e)
  where
    other : (k : ℕ) (ps : List Player) → 1 < k → destroy k ((1, ps) ∷ []) ≡ (1, ps) ∷ []
    other k ps l = let e : (1 == k) ≡ false = ground arith in rw e refl
