-- ===== src/ClockFace/Loop/Facts.antt =====
-- Which fact each clock gets.
use Prim.Native.String.{String}
use mathlib.Core.List.{append_assoc, map-append}
use native.Mathlib.Nat.{mod-add-mod, add-mod-mod}
use familyplanner.Prelude.{
  ℕ, suc, ◌+◌, ◌%◌, ◌≡◌, refl, sym, ap, subst, ◌∙◌, Bool, true, false, Option, List, [], ◌∷◌, ◌++◌,
  map, length, get_elem?, length-append, arith,
}
use familyplanner.ClockFace.Loop.{
  Dial, Page, mem, start_if, start_anim, tell, mount, setup_clock, setup_unless, setup_clocks,
}
use familyplanner.ClockFace.Loop.Laws.{setup_clock-set_up}

-- The clocks are new elements, and have the same facts.
abbrev pub AreNew : List String → List Dial → List ℕ → Type 0
AreNew fs [] es = Unit
AreNew fs (d ∷ ds) es =
    (mem d.element es ≡ false) × ((d.facts ≡ fs) × AreNew fs ds (d.element ∷ es))

-- One fact after another, from place `c` of the list on and round its end; the last one first.
abbrev pub in_turn : List String → ℕ → List Dial → List (ℕ × Option String)
in_turn fs c [] = []
in_turn fs c (d ∷ ds) = in_turn fs (c + 1) ds ++ ((d.element, get_elem? fs (c % length fs)) ∷ [])

start_if-told :
    (b : Bool) (p : Page)
    → ((start_if b p).told ≡ p.told) × ((start_if b p).fact_counter ≡ p.fact_counter)
unfolding start_if
start_if-told true p = (refl, refl)
start_if-told false p = (refl, refl)

unset_up : (b : Bool) (d : Dial) (p : Page) → b ≡ false → setup_unless b d p ≡ setup_clock d p
unfolding setup_unless
unset_up true d p h = cc h
unset_up false d p h = refl

next_place : (b c n : ℕ) → b % suc n ≡ c % suc n → (b + 1) % suc n ≡ (c + 1) % suc n
next_place b c n e =
    sym (mod-add-mod b (suc n) 1) ∙ ap (λ k. (k + 1) % suc n) e ∙ mod-add-mod c (suc n) 1

module _ (f : String) (fs : List String) where
  tell-told :
      (e : ℕ) (gs : List String) (p : Page)
      → gs ≡ f ∷ fs
      → ((tell e gs p).told ≡ (e, get_elem? (f ∷ fs) (p.fact_counter % length (f ∷ fs))) ∷ p.told)
        × ((tell e gs p).fact_counter ≡ p.fact_counter + 1)
  unfolding tell
  tell-told e [] p h = absurd (cc h)
  tell-told e (g ∷ gs) p h =
      (ap (λ hs. (e, get_elem? hs (p.fact_counter % length hs)) ∷ p.told) h, refl)

  setup_clock-told :
      (d : Dial) (p : Page)
      → d.facts ≡ f ∷ fs
      → ((setup_clock d p).told
          ≡ (d.element, get_elem? (f ∷ fs) (p.fact_counter % length (f ∷ fs))) ∷ p.told)
        × ((setup_clock d p).fact_counter ≡ p.fact_counter + 1)
  unfolding setup_clock mount start_anim
  setup_clock-told d p h =
      let q = record p { set_up = d.element ∷ p.set_up } in
      let t = tell-told d.element d.facts q h in
      ((start_if-told _ _).0 ∙ t.0, (start_if-told _ _).1 ∙ t.1)

  setup_clocks-told :
      (ds : List Dial) (p : Page)
      → AreNew (f ∷ fs) ds p.set_up
      → ((setup_clocks ds p).told ≡ in_turn (f ∷ fs) p.fact_counter ds ++ p.told)
        × ((setup_clocks ds p).fact_counter ≡ p.fact_counter + length ds)
  unfolding setup_clocks setup_unless
  setup_clocks-told [] p h = (refl, omega arith)
  setup_clocks-told (d ∷ ds) p h =
      let q = setup_clock d p in
      let (t, c) = setup_clock-told d p h.1.0 in
      let new = subst (λ es. AreNew (f ∷ fs) ds es) (sym (setup_clock-set_up d p)) h.1.1 in
      let (u, e) = setup_clocks-told ds q new in
      let rest : (setup_clocks ds q).told
          ≡ in_turn (f ∷ fs) (p.fact_counter + 1) ds
            ++ ((d.element, get_elem? (f ∷ fs) (p.fact_counter % length (f ∷ fs))) ∷ p.told) =
        rw (u, t, c) refl in
      let step = unset_up (mem d.element p.set_up) d p h.0 in
      (
        ap (λ r. (setup_clocks ds r).told) step
            ∙ rest
            ∙ sym (
                append_assoc (in_turn (f ∷ fs) (p.fact_counter + 1) ds)
                  ((d.element, get_elem? (f ∷ fs) (p.fact_counter % length (f ∷ fs))) ∷ []) p.told),
        ap (λ r. (setup_clocks ds r).fact_counter) step ∙ e ∙ omega (arith, c),
      )

  length-in_turn : (c : ℕ) (ds : List Dial) → length (in_turn (f ∷ fs) c ds) ≡ length ds
  length-in_turn c [] = refl
  length-in_turn c (d ∷ ds) = omega (arith, length-append {0}, length-in_turn (c + 1) ds)

  -- The facts go by place and by the counter, up to the number of facts.
  in_turn-same :
      (b c : ℕ) (ds es : List Dial)
      → b % length (f ∷ fs) ≡ c % length (f ∷ fs)
      → length ds ≡ length es
      → map (λ t. t.1) (in_turn (f ∷ fs) b ds) ≡ map (λ t. t.1) (in_turn (f ∷ fs) c es)
  in_turn-same b c [] [] m l = refl
  in_turn-same b c [] (e ∷ es) m l = absurd (omega arith)
  in_turn-same b c (d ∷ ds) [] m l = absurd (omega arith)
  in_turn-same b c (d ∷ ds) (e ∷ es) m l =
      let ih = in_turn-same (b + 1) (c + 1) ds es (next_place b c (length fs) m) (omega arith) in
      simp (map-append, ih, m)

  -- In two screens with the same number of clocks, of which the number of facts is a divisor, put one after
  -- the other, each clock of the second gets the fact that the clock in its place got on the first, and
  -- keeps telling it.
  pub same_facts :
      (ds es : List Dial) (p : Page)
      → AreNew (f ∷ fs) ds p.set_up
      → AreNew (f ∷ fs) es (setup_clocks ds p).set_up
      → length es ≡ length ds
      → length ds % length (f ∷ fs) ≡ 0
      → let q = setup_clocks ds p in
        (t u : List (ℕ × Option String)) × (length t ≡ length ds)
        × (q.told ≡ t ++ p.told)
        × ((setup_clocks es q).told ≡ u ++ q.told)
        × (map (λ x. x.1) u ≡ map (λ x. x.1) t)
  same_facts ds es p a b l m =
      let q = setup_clocks ds p in
      let (t, c) = setup_clocks-told ds p a in
      let k : q.fact_counter % length (f ∷ fs) ≡ p.fact_counter % length (f ∷ fs) =
        ap (λ j. j % length (f ∷ fs)) c
        ∙ sym (add-mod-mod p.fact_counter (length ds) (length (f ∷ fs)))
        ∙ ap (λ j. (p.fact_counter + j) % length (f ∷ fs)) m
        ∙ ap (λ j. j % length (f ∷ fs)) (omega arith) in
      (
        in_turn (f ∷ fs) p.fact_counter ds,
        in_turn (f ∷ fs) q.fact_counter es,
        length-in_turn p.fact_counter ds,
        t,
        (setup_clocks-told es q b).0,
        in_turn-same q.fact_counter p.fact_counter es ds k l,
      )
