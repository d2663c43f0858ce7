-- ===== src/Pdf/Slides/Chain/Tests.antt =====
-- A document of two pages.
use familyplanner.Prelude.{
  ◌≡◌, refl, Bool, true, false, none, List, [], ◌∷◌, if◌then◌else◌, pos, arith,
}
use familyplanner.Pdf.Slides.{
  Pdf, set_up, range_from, render_if, page_nums, render, finish, give_up,
}
use familyplanner.Pdf.Slides.Chain.{link, answer, answers, settle, render_pages}
use familyplanner.Pdf.Slides.Chain.Settled.{all_kept, all_or_nothing}

-- A document of two pages whose third promise is refused.
abbrev two_pages : Pdf
two_pages = record (set_up (pos 0) true false) { loaded = true; pages = 2; drawn = 1 ∷ 2 ∷ [] }

abbrev refused : List Bool
refused = true ∷ true ∷ false ∷ true ∷ []

all_or_nothing_example : render_pages 900 600 refused two_pages ≡ (
    if all_kept (page_nums two_pages) refused
    then finish 900 600 (render two_pages).rendering (render two_pages)
    else give_up (render two_pages))
unfolding set_up range_from
all_or_nothing_example = all_or_nothing 900 600 refused two_pages refl refl (omega arith)

-- The refused page leaves both old pages on the screen, and the widget can render again.
refused_stays :
    ((render_pages 900 600 refused two_pages).drawn ≡ 1 ∷ 2 ∷ [])
    × ((render_pages 900 600 refused two_pages).rendering ≡ none)
unfolding set_up range_from render_pages answers answer link settle render render_if give_up
refused_stays = (refl, refl)
