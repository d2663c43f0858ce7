-- ===== src/Pdf/Slides/Chain/Settled.antt =====
-- How the chain ends.
use familyplanner.Prelude.{
  ℕ, ◌*◌, ◌≤◌, ◌≡◌, refl, sym, ap, subst, ◌∙◌, Bool, true, false, ◌&&◌, none, some, List, [], ◌∷◌,
  ◌++◌, if◌then◌else◌, length, arith,
}
use mathlib.Core.List.{append-nil}
use familyplanner.Pdf.Slides.{Pdf, render_if, render, page_nums, page_label, finish, give_up}
use familyplanner.Pdf.Slides.Chain.{painted, broken, link, answer, answers, settle, render_pages}

-- Both promises of every page are kept.
abbrev pub all_kept : List ℕ → List Bool → Bool
all_kept [] bs = true
all_kept (n ∷ ns) [] = false
all_kept (n ∷ ns) (a ∷ []) = false
all_kept (n ∷ ns) (a ∷ b ∷ bs) = a && (b && all_kept ns bs)

answers-painted : (bs : List Bool) (frag : List ℕ) → answers bs (painted frag) ≡ painted frag
unfolding answers answer
answers-painted [] frag = refl
answers-painted (true ∷ bs) frag = answers-painted bs frag
answers-painted (false ∷ bs) frag = answers-painted bs frag

answers-broken : (bs : List Bool) → answers bs broken ≡ broken
unfolding answers answer
answers-broken [] = refl
answers-broken (true ∷ bs) = answers-broken bs
answers-broken (false ∷ bs) = answers-broken bs

snoc-append : (xs : List ℕ) (n : ℕ) (ys : List ℕ) → (xs ++ (n ∷ [])) ++ ys ≡ xs ++ (n ∷ ys)
snoc-append [] n ys = refl
snoc-append (x ∷ xs) n ys = ap (λ zs. x ∷ zs) (snoc-append xs n ys)

answers-link :
    (ns : List ℕ) (bs : List Bool) (frag : List ℕ)
    → 2 * length ns ≤ length bs
    → answers bs (link ns frag) ≡ (if all_kept ns bs then painted (frag ++ ns) else broken)
unfolding link answers answer
answers-link [] bs frag h = answers-painted bs frag ∙ ap painted (sym (append-nil frag))
answers-link (n ∷ ns) [] frag h = absurd (omega arith)
answers-link (n ∷ ns) (a ∷ []) frag h = absurd (omega arith)
answers-link (n ∷ ns) (false ∷ b ∷ bs) frag h = answers-broken bs
answers-link (n ∷ ns) (true ∷ false ∷ bs) frag h = answers-broken bs
answers-link (n ∷ ns) (true ∷ true ∷ bs) frag h =
    answers-link ns bs (frag ++ (n ∷ [])) (omega arith)
    ∙ ap (λ zs. if all_kept ns bs then painted zs else broken) (snoc-append frag n ns)

kept_or_given_up :
    (b : Bool) (over client : ℕ) (ns : List ℕ) (s : Pdf)
    → settle over client (if b then painted ns else broken) s
      ≡ (if b then finish over client (some ns) s else give_up s)
unfolding settle
kept_or_given_up true over client ns s = refl
kept_or_given_up false over client ns s = refl

drawn_together :
    (over client : ℕ) (bs : List Bool) (s : Pdf)
    → 2 * length (page_nums s) ≤ length bs
    → let t = render (record s { loaded = true; rendering = none }) in
      render_pages over client bs (record s { loaded = true; rendering = none })
      ≡ (if all_kept (page_nums s) bs then finish over client t.rendering t else give_up t)
unfolding render_pages render render_if
drawn_together over client bs s h =
    let t = record s { loaded = true; rendering = some (page_nums s); badge = page_label s } in
    ap (λ c. settle over client c t) (answers-link (page_nums s) bs [] h)
    ∙ kept_or_given_up (all_kept (page_nums s) bs) over client (page_nums s) t

-- A render of a loaded widget that has none in progress, once the promises of all its pages are settled,
-- is one of the two steps of the widget: if every page could be fetched and drawn, all pages come on the
-- screen together and in their order, and if one could not, the screen keeps what it showed.
pub all_or_nothing :
    (over client : ℕ) (bs : List Bool) (s : Pdf)
    → s.loaded ≡ true
    → s.rendering ≡ none
    → 2 * length (page_nums s) ≤ length bs
    → render_pages over client bs s ≡ (
        if all_kept (page_nums s) bs
        then finish over client (render s).rendering (render s)
        else give_up (render s))
all_or_nothing over client bs s l r h =
    subst
      (λ u. render_pages over client bs u ≡ (
        if all_kept (page_nums s) bs
        then finish over client (render u).rendering (render u)
        else give_up (render u)))
      (λ i. record s { loaded = sym l i; rendering = sym r i }) (drawn_together over client bs s h)
