-- ===== src/Pdf/Setup/Twice.antt =====
-- Every PDF widget is set up once.
use familyplanner.Prelude.{◌≡◌, refl, Bool, true, false, Option, none, some, List, [], ◌∷◌, ℤ}
use familyplanner.Pdf.Slides.{Pdf}
use familyplanner.Pdf.Setup.{Holder, set_up_if, set_up_pdfs}

set_up_if_twice :
    (u : Bool) (w : Option Pdf) (b c : Bool) (i : ℤ) (f : Bool)
    → let h = set_up_if u w b (record { has_url = u; interval = i; fit_width = f; widget = w }) in
      set_up_if h.has_url h.widget c h ≡ h
unfolding set_up_if
set_up_if_twice false w b c i f = refl
set_up_if_twice true (some w) b c i f = refl
set_up_if_twice true none b c i f = refl

-- A second set-up of the same elements changes nothing, whatever it is to do at their ends: no document
-- is loaded again, and no slideshow begins anew.
pub set_up_pdfs_twice :
    (b c : Bool) (hs : List Holder) → set_up_pdfs c (set_up_pdfs b hs) ≡ set_up_pdfs b hs
unfolding set_up_pdfs
set_up_pdfs_twice b c [] = refl
set_up_pdfs_twice b c (h ∷ hs) = λ i.
    set_up_if_twice h.has_url h.widget b c h.interval h.fit_width i ∷ set_up_pdfs_twice b c hs i
