-- ===== src/Kiosk/Stage/Listen/Tests.antt =====
-- A kiosk that follows view "1" of a playlist of two.
use Prim.Native.String.{String}
use familyplanner.Prelude.{
  ◌≡◌, ◌≢◌, refl, true, false, none, some, List, [], ◌∷◌, arith, pos, negsuc, ◌⊎◌, inl,
}
use familyplanner.Kiosk.State.{Doc}
use text.Mathlib.TextEquality.{eq_iff}
use familyplanner.Kiosk.Stage.{Stage, Page, page, load_transient, install, is_on_end}
use familyplanner.Kiosk.Stage.Listen.{
  version, Message, navigate, refresh, names, arrived, fallback_due, run,
}
use familyplanner.Kiosk.Stage.Listen.Covered.{IsCovered, asked, run-IsCovered}
use familyplanner.Kiosk.Stage.Listen.Transient.{transient_until_advance}
use familyplanner.Kiosk.Stage.Listen.Stalled.{NoControl}
use familyplanner.Kiosk.Stage.Listen.LostPdf.{Happening, heard, at_pdf, happen_all, lost_pdf_stalls}
use familyplanner.Pdf.Slides.{set_up, zoomed}

abbrev blank : Doc
blank = record { advance_on_end = some false; video = false; pdf = none; slid = false }

abbrev film : Doc
film = record blank { advance_on_end = some true; video = true }

abbrev first : Stage
first = record {
  current = some "1";
  view_attr = some "1";
  override = none;
  names = ("1", "Agenda") ∷ ("2", "Foto") ∷ [];
  label = "Agenda";
  transition_on = true;
  last_dwell = pos 20;
  boot_id = some "a";
  date_fmt = "long";
  doc = blank;
  focus = record { widgets = []; focus_idx = negsuc 0; frozen = none };
  pending = [];
  fallback = none;
}

abbrev story : List Message
story =
    navigate "2"
    ∷ arrived 0 (page (record { doc = record blank { advance_on_end = some true }; widgets = [] }))
    ∷ fallback_due
    ∷ []

run-IsCovered_example : IsCovered (run story first).0 ⊎ (asked story first false ≡ true)
run-IsCovered_example = run-IsCovered story first (inl refl)

two_ne_one : ◌≢◌ {A = String} "2" "1"
two_ne_one = ground (arith, eq_iff "2" "1")

two_ne_three : ◌≢◌ {A = String} "2" "3"
two_ne_three = ground (arith, eq_iff "2" "3")

abbrev quiet : List Message
quiet =
    refresh
    ∷ arrived 0 (page (record { doc = blank; widgets = [] }))
    ∷ navigate "1"
    ∷ version "a"
    ∷ names none
    ∷ refresh
    ∷ []

transient_until_advance_example : (run quiet (load_transient "9" first)).0.override ≡ some "9"
transient_until_advance_example =
    (transient_until_advance "1" "a" "9" first quiet "2" refl refl refl refl (refl, (refl, tt))
      two_ne_one).0

abbrev old : Page
old = record { doc = film; widgets = [] }

abbrev new : Page
new = record { doc = blank; widgets = [] }

abbrev brochure : Page
brochure = record {
  doc = record blank { advance_on_end = some true; pdf = some (pos 10) };
  widgets = [];
}

abbrev waiting : List Happening
waiting = heard refresh ∷ (at_pdf zoomed ∷ (heard (navigate "1") ∷ (heard fallback_due ∷ [])))

lost_pdf_stalls_example :
    let t = (install true brochure first).0 in
    let p = set_up (pos 10) true (is_on_end (some true)) in
    let r = happen_all waiting (record { stage = t; pdf = p }) in
    (r.0.stage.doc ≡ t.doc) × (r.0.pdf ≡ p) × NoControl r.1
lost_pdf_stalls_example =
    lost_pdf_stalls waiting "1" (pos 10) true true brochure first refl refl refl refl
      (tt, (tt, (refl, (tt, tt))))
