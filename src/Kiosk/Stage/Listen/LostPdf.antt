-- ===== src/Kiosk/Stage/Listen/LostPdf.antt =====
-- A screen with a slideshow PDF that cannot be loaded: the stage and the PDF widget together.
use Prim.Native.String.{String}
use familyplanner.Prelude.{
  ◌≡◌, refl, sym, subst, Bool, true, false, none, some, List, [], ◌∷◌, ◌++◌, arith, ℤ, ltb,
  if◌then◌else◌,
}
use familyplanner.Kiosk.State.{Doc, Effect, control}
use familyplanner.Kiosk.Stage.{Stage, has_slideshow_pdf}
use familyplanner.Kiosk.Stage.Listen.{Message, listen}
use familyplanner.Pdf.Slides.{Pdf, set_up, Event, step}
use familyplanner.Pdf.Slides.Failed.{NotCame, lost_step}
use familyplanner.Kiosk.Stage.{Page, install, end_fallback, schedule_end_fallback, is_on_end}
use familyplanner.Kiosk.State.{is_positive}
use familyplanner.Kiosk.Stage.Listen.Stalled.{
  AtView, NoControl, NoControl-append, IsWaiting, listen-Stays,
}

-- The page as far as it is about its stage and the PDF widget on it.
pub record World : Type 0 where
  pub stage : Stage
  pub pdf : Pdf

pub data Happening : Type 0 where
  heard : Message → Happening
  at_pdf : Event → Happening

-- A call of `onEnd`, which asks for the next screen.
pub asked_by : Pdf → Pdf → List Effect
asked_by p q = if ltb p.ended q.ended then control "next" ∷ [] else []

pub happen : Happening → World → World × List Effect
happen (heard m) w = let (s, es) = listen m w.stage in (record w { stage = s }, es)
happen (at_pdf e) w = let p = step e w.pdf in (record w { pdf = p }, asked_by w.pdf p)

pub happen_all : List Happening → World → World × List Effect
happen_all [] w = (w, [])
happen_all (h ∷ hs) w = let (u, es) = happen h w in let (t, fs) = happen_all hs u in (t, es ++ fs)

-- The server stays at the view `v`, and the document does not come.
abbrev pub IsStuck : String → List Happening → Type 0
IsStuck v [] = Unit
IsStuck v (heard m ∷ hs) = AtView v m × IsStuck v hs
IsStuck v (at_pdf e ∷ hs) = NotCame e × IsStuck v hs

asked_by-same : (p : Pdf) → NoControl (asked_by p p)
unfolding asked_by
asked_by-same p = let e : ltb p.ended p.ended ≡ false = ground arith in rw e tt

stalls :
    (hs : List Happening) (v : String) (d : Doc) (interval : ℤ) (fit_width on_end : Bool)
    (s : Stage)
    → IsStuck v hs
    → IsWaiting v d s
    → let p = set_up interval fit_width on_end in
      let r = happen_all hs (record { stage = s; pdf = p }) in
      (r.0.stage.doc ≡ d) × (r.0.pdf ≡ p) × NoControl r.1
unfolding happen_all happen
stalls [] v d i w b s h u = (u.shown, refl, tt)
stalls (heard m ∷ hs) v d i w b s h u =
    let r = listen-Stays v d m s h.0 u in
    let q = stalls hs v d i w b (listen m s).0 h.1 r.0 in (q.0, q.1, NoControl-append _ _ r.1 q.2)
stalls (at_pdf e ∷ hs) v d i w b s h u =
    let p = set_up i w b in
    let q = stalls hs v d i w b s h.1 u in
    subst
      (λ p₁.
        let r = happen_all hs (record { stage = s; pdf = p₁ }) in
        (r.0.stage.doc ≡ d) × (r.0.pdf ≡ p) × NoControl (asked_by p p₁ ++ r.1))
      (sym (lost_step e i w b h.0)) (q.0, q.1, NoControl-append _ _ (asked_by-same p) q.2)

no_fallback : (d : Doc) (dwell : ℤ) → has_slideshow_pdf d ≡ true → end_fallback d dwell ≡ none
unfolding end_fallback
no_fallback d n e = ground arith

-- A page with a slideshow PDF has been put on the stage, and nothing else is under way. If the document
-- cannot be loaded and the server stays at this view, then nothing that the server sends and nothing that
-- happens to the PDF makes the page ask for the next screen, or send any other command, even where the
-- screen is to advance at its end: the document on the stage stays, and the widget is as at its set-up.
pub lost_pdf_stalls :
    (hs : List Happening) (v : String) (interval : ℤ) (fit_width animate : Bool) (page : Page)
    (s : Stage)
    → s.current ≡ some v
    → s.pending ≡ []
    → page.doc.pdf ≡ some interval
    → is_positive interval ≡ true
    → IsStuck v hs
    → let t = (install animate page s).0 in
      let p = set_up interval fit_width (is_on_end page.doc.advance_on_end) in
      let r = happen_all hs (record { stage = t; pdf = p }) in
      (r.0.stage.doc ≡ t.doc) × (r.0.pdf ≡ p) × NoControl r.1
unfolding install schedule_end_fallback has_slideshow_pdf
lost_pdf_stalls hs v i w a page s c n e q h =
    let t = (install a page s).0 in
    let g : has_slideshow_pdf t.doc ≡ true = rw e q in
    stalls hs v t.doc i w (is_on_end page.doc.advance_on_end) t h (record {
      at = c;
      shown = refl;
      sliding = g;
      unset = no_fallback t.doc s.last_dwell g;
      idle = n;
    })
