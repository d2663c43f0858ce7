-- ===== src/Pdf/Slides/Walk.antt =====
-- The pages of a slideshow PDF are a ring for the user.
use familyplanner.Prelude.{
  ℕ, ◌+◌, ◌-◌, ◌<◌, ◌≤◌, ◌≡◌, refl, ◌∙◌, ap, arith, Bool, true, false, ◌&&◌, Option, none, some,
  List, ℤ, pos, negsuc, ◌==◌, if◌then◌else◌,
}
use familyplanner.Ring.{Ring, walk, walk_place, after_steps, back_mod, forth_mod}
use familyplanner.Pdf.Slides.{Pdf, next_page, render_if, render, schedule_slide, step_if, pdf_step}

-- A slideshow of `n` pages is open at one of them; they are counted from 1.
pub record IsOpen (n : ℕ) (s : Pdf) : Type 0 where
  pub sliding : s.slideshow ≡ true
  pub there : s.loaded ≡ true
  pub all : s.pages ≡ n
  pub first : 1 ≤ s.page
  pub last : s.page ≤ n

-- A render leaves the page and its document.
record Keeps (s t : Pdf) : Type 0 where
  sliding : t.slideshow ≡ s.slideshow
  there : t.loaded ≡ s.loaded
  all : t.pages ≡ s.pages
  page : t.page ≡ s.page

render-Keeps : (b : Bool) (r : Option (List ℕ)) (s : Pdf) → Keeps s (render_if b r s)
unfolding render_if
render-Keeps false r s = record { sliding = refl; there = refl; all = refl; page = refl }
render-Keeps true none s = record { sliding = refl; there = refl; all = refl; page = refl }
render-Keeps true (some ns) s = record { sliding = refl; there = refl; all = refl; page = refl }

step-IsOpen :
    (dir : ℤ) (n : ℕ) (s : Pdf)
    → IsOpen n s
    → 1 ≤ next_page dir n s.page
    → next_page dir n s.page ≤ n
    → IsOpen n (pdf_step dir s) × ((pdf_step dir s).page ≡ next_page dir n s.page)
unfolding pdf_step step_if schedule_slide render
step-IsOpen dir n s v a b =
    let l = v.sliding in
    let d = v.there in
    let e : (s.slideshow && s.loaded) ≡ true = rw (l, d) refl in
    let t = record s { page = next_page dir s.pages s.page } in
    let k = render-Keeps s.loaded s.rendering t in
    let p : next_page dir s.pages s.page ≡ next_page dir n s.page =
      ap (λ m. next_page dir m s.page) v.all in
    let q = k.page ∙ p in
    rw e (
      record {
        sliding = k.sliding ∙ v.sliding;
        there = k.there ∙ v.there;
        all = k.all ∙ v.all;
        first = omega (arith, q, a);
        last = omega (arith, q, b);
      },
      q,
    )

forth-IsOpen :
    (n : ℕ) (s : Pdf)
    → IsOpen n s
    → IsOpen n (pdf_step (pos 1) s)
      × ((pdf_step (pos 1) s).page - 1 ≡ (if s.page - 1 + 1 == n then 0 else s.page - 1 + 1))
unfolding next_page
forth-IsOpen n s v =
    let a = v.first in
    let b = v.last in
    let (w, q) = step-IsOpen (pos 1) n s v (ground arith) (ground arith) in (w, ground (arith, q))

back-IsOpen :
    (n : ℕ) (s : Pdf)
    → IsOpen n s
    → IsOpen n (pdf_step (negsuc 0) s)
      × ((pdf_step (negsuc 0) s).page - 1 ≡ (if s.page - 1 == 0 then n - 1 else s.page - 1 - 1))
unfolding next_page
back-IsOpen n s v =
    let a = v.first in
    let b = v.last in
    let (w, q) = step-IsOpen (negsuc 0) n s v (ground arith) (ground arith) in
    (w, ground (arith, q))

page-lt : (n : ℕ) (s : Pdf) → IsOpen n s → s.page - 1 < n
page-lt n s v = let a = v.first in let b = v.last in omega arith

pub slides : ℕ → Ring Pdf
slides n = record {
  size = n;
  place = λ s. s.page - 1;
  forth = pdf_step (pos 1);
  back = pdf_step (negsuc 0);
  IsOn = IsOpen n;
  place-lt = page-lt n;
  forth-IsOn = λ s v. (forth-IsOpen n s v).0;
  back-IsOn = λ s v. (back-IsOpen n s v).0;
  forth_place = λ s v. (forth-IsOpen n s v).1 ∙ forth_mod n (s.page - 1) (page-lt n s v);
  back_place = λ s v. (back-IsOpen n s v).1 ∙ back_mod n (s.page - 1) (page-lt n s v);
}

-- After any page keys on an open slideshow, in any order, its page is the one that lies as many pages
-- further round the document as there were more steps forth than back.
pub page_walk :
    (n : ℕ) (ds : List Bool) (s : Pdf)
    → IsOpen n s
    → (walk (pdf_step (pos 1)) (pdf_step (negsuc 0)) ds s).page - 1 ≡ after_steps n (s.page - 1) ds
unfolding slides
page_walk n ds s v = walk_place (slides n) ds s v
