-- ===== src/Widgets/Fresh.antt =====
-- What stands on the stage after some views.
use familyplanner.Prelude.{
  suc, subst, sym, ◌+◌, ◌≡◌, refl, ap, ◌∙◌, Bool, none, some, List, [], ◌∷◌, ◌++◌, map, length,
  Bool-cases, inl, inr, if◌then◌else◌,
}
use familyplanner.Videos.{videos_in}
use familyplanner.Videos.Loading.{arrive}
use familyplanner.Videos.Loading.Stage.{put, put_all}
use familyplanner.Videos.Loading.Stage.Setups.{opened, one_view_undestroyed}
use familyplanner.Pdf.Slides.{set_up}
use familyplanner.Pdf.Setup.{Holder, set_up_if, set_up_pdfs}
use familyplanner.ClockFace.Loop.{Page}
use familyplanner.ClockFace.Loop.Laws.{
  IsValid, setup_clocks-IsValid, AllSetUp, setup_clocks-AllSetUp,
}
use familyplanner.Widgets.{Tag, Markup, Widgets, holder, load, load_all}

-- A PDF at the first page, which loads its document if it has an address.
abbrev pub fresh : Bool → Tag → Holder
fresh on_end t = record (holder t) {
  widget = if t.has_url then some (set_up t.interval t.fit_width on_end) else none;
}

fresh_one : (on_end : Bool) (t : Tag) → set_up_if t.has_url none on_end (holder t) ≡ fresh on_end t
unfolding holder set_up_if
fresh_one on_end t = elim (Bool-cases t.has_url) [ inl e ↦ rw e refl | inr e ↦ rw e refl ]

set_up_pdfs-fresh :
    (on_end : Bool) (ts : List Tag) → set_up_pdfs on_end (map holder ts) ≡ map (fresh on_end) ts
unfolding set_up_pdfs holder
set_up_pdfs-fresh on_end [] = refl
set_up_pdfs-fresh on_end (t ∷ ts) = λ i. fresh_one on_end t i ∷ set_up_pdfs-fresh on_end ts i

load_all-players :
    (ms : List Markup) (w : Widgets)
    → (load_all ms w).players ≡ put_all (map (λ m. m.films) ms) w.players
unfolding load_all load put_all
load_all-players [] w = refl
load_all-players (m ∷ ms) w = load_all-players ms (load m w)

load_all-append :
    (ms : List Markup) (m : Markup) (w : Widgets)
    → load_all (ms ++ (m ∷ [])) w ≡ load m (load_all ms w)
unfolding load_all
load_all-append [] m w = refl
load_all-append (x ∷ ms) m w = load_all-append ms m (load x w)

load_all-IsValid :
    (ms : List Markup) (w : Widgets) → IsValid w.clocks → IsValid (load_all ms w).clocks
unfolding load_all load
load_all-IsValid [] w v = v
load_all-IsValid (m ∷ ms) w v =
    load_all-IsValid ms (load m w) (setup_clocks-IsValid m.dials w.clocks v)

loaded_pdfs :
    (m : Markup) (w : Widgets) → (load m w).pdfs ≡ map (fresh m.films.advance_on_end) m.pdfs
unfolding load
loaded_pdfs m w = set_up_pdfs-fresh m.films.advance_on_end m.pdfs

loaded_clocks : (m : Markup) (w : Widgets) → AllSetUp m.dials (load m w).clocks
unfolding load
loaded_clocks m w = setup_clocks-AllSetUp m.dials w.clocks

films-append :
    (ms : List Markup) (m : Markup)
    → map (λ x. x.films) (ms ++ (m ∷ [])) ≡ map (λ x. x.films) ms ++ (m.films ∷ [])
films-append [] m = refl
films-append (x ∷ ms) m = ap (λ vs. x.films ∷ vs) (films-append ms m)

length-films : (ms : List Markup) → length (map (λ x. x.films) ms) ≡ length ms
length-films [] = refl
length-films (m ∷ ms) = ap suc (length-films ms)

-- The three scripts at the view that the page was opened with, whose player's script has come.
abbrev pub at_start : Markup → List Holder → Page → Widgets
at_start m hs c = record { players = arrive (put m.films (opened m.films)); pdfs = hs; clocks = c }

last_players :
    (first : Markup) (ms : List Markup) (m : Markup) (hs : List Holder) (c : Page)
    → (load_all (ms ++ (m ∷ [])) (at_start first hs c)).players.page.undestroyed
      ≡ (length ms + 2, videos_in m.films.lists m.films.advance_on_end) ∷ []
last_players first ms m hs c =
    ap (λ l. l.page.undestroyed) (load_all-players (ms ++ (m ∷ [])) (at_start first hs c))
    ∙ ap (λ vs. (put_all vs (arrive (put first.films (opened first.films)))).page.undestroyed)
        (films-append ms m)
    ∙ one_view_undestroyed first.films (map (λ x. x.films) ms) m.films
    ∙ ap (λ n. (n + 2, videos_in m.films.lists m.films.advance_on_end) ∷ []) (length-films ms)

-- Where the player's script came while the first view was on the stage, and however many views followed,
-- only the last one counts: the players of its videos are the only ones that were not destroyed, its
-- PDFs are the only ones and each is at its set-up, and all its clocks are set up, with one frame requested
-- for all clocks as before.
pub only_last_counts :
    (first : Markup) (ms : List Markup) (m : Markup) (hs : List Holder) (c : Page)
    → IsValid c
    → let w = load_all (ms ++ (m ∷ [])) (at_start first hs c) in
      (w.players.page.undestroyed
        ≡ (length ms + 2, videos_in m.films.lists m.films.advance_on_end) ∷ [])
      × ((w.pdfs ≡ map (fresh m.films.advance_on_end) m.pdfs)
          × (AllSetUp m.dials w.clocks × IsValid w.clocks))
only_last_counts first ms m hs c v =
    let start = at_start first hs c in
    let e = load_all-append ms m start in
    (
      last_players first ms m hs c,
      (
        ap (λ w. w.pdfs) e ∙ loaded_pdfs m (load_all ms start),
        (
          subst (λ w. AllSetUp m.dials w.clocks) (sym e) (loaded_clocks m (load_all ms start)),
          load_all-IsValid (ms ++ (m ∷ [])) start v,
        ),
      ),
    )
