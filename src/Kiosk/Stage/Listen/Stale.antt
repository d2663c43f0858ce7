-- ===== src/Kiosk/Stage/Listen/Stale.antt =====
-- The label, and the order of answers.
use Prim.Native.String.{String}
use text.Mathlib.TextEquality.{eq_iff}
use mathlib.Core.Option.{some-injective}
use familyplanner.Prelude.{
  ◌≡◌, ◌≢◌, refl, true, false, Option, none, some, List, [], ◌∷◌, ◌++◌, arith,
}
use familyplanner.Kiosk.State.{is_empty}
use familyplanner.Kiosk.Stage.{
  Stage, Page, page, label_of, update_view_label, load_view, load_transient, schedule_end_fallback,
  install, settle, answer, remove_at,
}
use familyplanner.Kiosk.Stage.Listen.{
  navigate, names, arrived, differs, on_navigate, on_names, listen, run, shown_id,
}

-- While a picked screen is up, a new map of names puts the name of the playlist's view under it.
pub names_relabels :
    (id : String) (m : List (String × String)) (s : Stage)
    → is_empty id ≡ false
    → let t = (listen (names (some m)) (load_transient id s)).0 in
      (shown_id t ≡ some id) × (t.label ≡ label_of m s.current)
unfolding listen on_names load_transient load_view update_view_label
names_relabels id m s full = (ground arith, refl)

abbrev advanced : String → Stage → Stage
advanced w s = record s {
  current = some w;
  view_attr = some w;
  override = none;
  label = label_of s.names (some w);
  pending = s.pending ++ (record { id = w; animate = true } ∷ []);
}

navigate-advanced :
    (w : String) (s : Stage)
    → differs w s.current ≡ true
    → is_empty w ≡ false
    → on_navigate w s ≡ advanced w s
unfolding on_navigate load_view update_view_label
navigate-advanced w s d f = rw (d, f)

differs_of_ne : (w : String) (c : Option String) → c ≢ some w → differs w c ≡ true
differs_of_ne w none h = refl
differs_of_ne w (some v) h = ground (arith, eq_iff w v, h)

-- Two advances whose answers come in the wrong order leave the first view on the stage, under the
-- name of the second.
pub stale_answer :
    (s : Stage) (a b : String) (p q : Page)
    → s.pending ≡ []
    → is_empty a ≡ false
    → is_empty b ≡ false
    → s.current ≢ some a
    → a ≢ b
    → let t = (run (navigate a ∷ navigate b ∷ arrived 1 (page q) ∷ arrived 0 (page p) ∷ []) s).0 in
      (t.current ≡ some b)
      × (t.label ≡ label_of s.names (some b))
      × (t.focus.widgets ≡ p.widgets)
      × (t.doc.video ≡ p.doc.video)
      × (t.pending ≡ [])
unfolding run listen answer settle install schedule_end_fallback remove_at
stale_answer s a b p q e fa fb c ne =
    let d : differs b (some a) ≡ true = differs_of_ne b (some a) (λ h. ne (some-injective a b h)) in
    rw (navigate-advanced a s (differs_of_ne a s.current c) fa)
      (rw (navigate-advanced b (advanced a s) d fb) (rw e (refl, refl, refl, refl, refl)))
