-- ===== src/Kiosk/Stage/Listen/Playing.antt =====
-- What plays is not disturbed by the periodic refresh.
use familyplanner.Prelude.{Bool-cases, ◌≡◌, refl, Bool, true, false, [], ◌∷◌, arith, ◌⊎◌, inl, inr}
use familyplanner.Kiosk.State.{beat, load_ticker, is_negative}
use familyplanner.Kiosk.Stage.{Stage, load_view, has_slideshow_pdf}
use familyplanner.Kiosk.Stage.Listen.{refresh, is_playing, on_refresh, listen, shown_id}

-- Something is on the screen that a reload would interrupt: a video, a slideshow PDF, or the user's
-- focus on a widget.
abbrev pub IsBusy : Stage → Type 0
IsBusy s =
    (s.doc.video ≡ true)
    ⊎ (has_slideshow_pdf s.doc ≡ true)
    ⊎ (is_negative s.focus.focus_idx ≡ false)

not_true : (b : Bool) → ¬ (b ≡ true) → b ≡ false
not_true true h = absurd (h refl)
not_true false h = refl

not_false : (b : Bool) → ¬ (b ≡ false) → b ≡ true
not_false true h = refl
not_false false h = absurd (h refl)

idle :
    (s : Stage)
    → s.doc.video ≡ false
    → has_slideshow_pdf s.doc ≡ false
    → is_negative s.focus.focus_idx ≡ true
    → ¬ IsBusy s
idle s v p n (inl e) = cc
idle s v p n (inr (inl e)) = cc
idle s v p n (inr (inr e)) = cc

busy-cases : (s : Stage) → IsBusy s ⊎ (¬ IsBusy s)
busy-cases s = elim (Bool-cases s.doc.video) [
  | inl v ↦ inl (inl v)
  | inr v ↦ elim (Bool-cases (has_slideshow_pdf s.doc)) [
    | inl p ↦ inl (inr (inl p))
    | inr p ↦ elim (Bool-cases (is_negative s.focus.focus_idx)) [
      | inr n ↦ inl (inr (inr n))
      | inl n ↦ inr (idle s v p n)
    ]
  ]
]

-- The periodic refresh loads the ticker. While something is on the screen that a reload would
-- interrupt, it leaves the whole stage as it is; otherwise it asks once, with no animation, for the
-- transient screen if there is one and for the current view if not.
pub listen-refresh :
    (s : Stage)
    → (IsBusy s × (listen refresh s ≡ (s, beat ∷ load_ticker ∷ [])))
      ⊎ ((¬ IsBusy s)
          × (listen refresh s ≡ (load_view (shown_id s) false s, beat ∷ load_ticker ∷ [])))
unfolding listen on_refresh is_playing
listen-refresh s = elim (busy-cases s) [
  | inl b ↦ inl (b, ground arith)
  | inr b ↦ inr (
    b,
    ground (
      arith,
      not_true s.doc.video (λ e. b (inl e)),
      not_true (has_slideshow_pdf s.doc) (λ e. b (inr (inl e))),
      not_false (is_negative s.focus.focus_idx) (λ e. b (inr (inr e))),
    ),
  )
]
