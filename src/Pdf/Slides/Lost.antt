-- ===== src/Pdf/Slides/Lost.antt =====
-- The steps that the user makes through a slideshow PDF.
use familyplanner.Prelude.{
  ℕ, ◌≤◌, ◌≡◌, ◌≢◌, refl, sym, subst, ◌∙◌, Bool, true, false, none, some, List, [], ◌∷◌, ℤ, pos,
  negsuc, arith,
}
use familyplanner.Pdf.Slides.{
  Pdf, render_if, render, schedule_slide, finish, next_page, step_if, pdf_step, rendered, stepped,
  step, run,
}

-- A step of the user to one side and a step back, round the ends of the document, end at the page
-- where the user was, in either order.
pub next_page_inverse :
    (n k : ℕ)
    → 1 ≤ k
    → k ≤ n
    → (next_page (negsuc 0) n (next_page (pos 1) n k) ≡ k)
      × (next_page (pos 1) n (next_page (negsuc 0) n k) ≡ k)
unfolding next_page
next_page_inverse n k a b = (ground arith, ground arith)

next_page-moves : (dir : ℤ) (n k : ℕ) → 1 ≤ k → k ≤ n → 2 ≤ n → next_page dir n k ≢ k
unfolding next_page
next_page-moves (pos d) n k a b c = λ e. ground arith
next_page-moves (negsuc d) n k a b c = λ e. ground arith

finish-kept :
    (over client : ℕ) (ns : List ℕ) (s : Pdf) (b : Bool)
    → let t = finish over client (some ns) (record s { slideshow = true; fit_width = b }) in
      (t.drawn ≡ ns) × ((t.page ≡ s.page) × (t.rendering ≡ none))
unfolding finish
finish-kept over client ns s true = (refl, (refl, refl))
finish-kept over client ns s false = (refl, (refl, refl))

step_busy :
    (dir : ℤ) (over client k : ℕ) (s : Pdf)
    → 1 ≤ k
    → k ≤ s.pages
    → 2 ≤ s.pages
    → let t =
        run
          (stepped dir ∷ rendered over client ∷ [])
          (record s { slideshow = true; loaded = true; rendering = some (k ∷ []); page = k }) in
      (t.drawn ≡ k ∷ []) × ((t.page ≢ k) × (t.rendering ≡ none))
unfolding run step pdf_step step_if render render_if schedule_slide
step_busy dir over client k s e f g =
    let j = next_page dir s.pages k in
    let u = record s { loaded = true; rendering = some (k ∷ []); page = j; timer = true } in
    let r = finish-kept over client (k ∷ []) u s.fit_width in
    (r.0, ((λ q. next_page-moves dir s.pages k e f g (sym r.1.0 ∙ q)), r.1.1))

-- A step that the user makes while a page is being rendered is lost on the screen: when that render is
-- finished, it is the old page that stands there, although the widget is at the new one, and nothing is
-- being rendered.
pub step_while_rendering :
    (dir : ℤ) (over client k : ℕ) (s : Pdf)
    → s.slideshow ≡ true
    → s.loaded ≡ true
    → s.rendering ≡ some (k ∷ [])
    → s.page ≡ k
    → 1 ≤ k
    → k ≤ s.pages
    → 2 ≤ s.pages
    → let t = run (stepped dir ∷ rendered over client ∷ []) s in
      (t.drawn ≡ k ∷ []) × ((t.page ≢ k) × (t.rendering ≡ none))
step_while_rendering dir over client k s a b c d e f g =
    subst
      (λ u.
        let t = run (stepped dir ∷ rendered over client ∷ []) u in
        (t.drawn ≡ k ∷ []) × ((t.page ≢ k) × (t.rendering ≡ none)))
      (λ i. record s { slideshow = sym a i; loaded = sym b i; rendering = sym c i; page = sym d i })
      (step_busy dir over client k s e f g)
