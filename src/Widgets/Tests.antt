-- ===== src/Widgets/Tests.antt =====
-- Three views with a video list, a slideshow PDF and a clock each.
use familyplanner.Prelude.{◌≡◌, refl, true, false, [], ◌∷◌, map, pos}
use familyplanner.Videos.{videos_in}
use familyplanner.ClockFace.Loop.{Page}
use familyplanner.ClockFace.Loop.Laws.{IsValid, AllSetUp}
use familyplanner.Widgets.{Markup, load_all}
use familyplanner.Widgets.Fresh.{fresh, at_start, only_last_counts}

abbrev kitchen : Markup
kitchen = record {
  films = record { lists = ("news" ∷ []) ∷ []; advance_on_end = true };
  pdfs = record { has_url = true; interval = pos 8; fit_width = true } ∷ [];
  dials = record { element = 7; facts = "een feit" ∷ [] } ∷ [];
}

abbrev hall : Markup
hall = record {
  films = record { lists = []; advance_on_end = false };
  pdfs = record { has_url = false; interval = pos 0; fit_width = false } ∷ [];
  dials = record { element = 9; facts = [] } ∷ [];
}

abbrev no_clocks : Page
no_clocks = record {
  set_up = [];
  clocks = [];
  animating = false;
  frames = 0;
  fact_counter = 0;
  told = [];
}

only_last_counts_example :
    ((load_all (hall ∷ (kitchen ∷ [])) (at_start kitchen [] no_clocks)).players.page.undestroyed
      ≡ (3, videos_in kitchen.films.lists true) ∷ [])
    × (((load_all (hall ∷ (kitchen ∷ [])) (at_start kitchen [] no_clocks)).pdfs
          ≡ map (fresh true) kitchen.pdfs)
        × (AllSetUp kitchen.dials
              (load_all (hall ∷ (kitchen ∷ [])) (at_start kitchen [] no_clocks)).clocks
            × IsValid (load_all (hall ∷ (kitchen ∷ [])) (at_start kitchen [] no_clocks)).clocks))
only_last_counts_example =
    only_last_counts kitchen (hall ∷ []) kitchen [] no_clocks
      (record { one_frame = refl; running = λ _. refl })
