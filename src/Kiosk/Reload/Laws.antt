-- ===== src/Kiosk/Reload/Laws.antt =====
-- How often the nightly reload fires, within one page and across reloads.
use familyplanner.Prelude.{
  ℕ, ◌+◌, ◌≡◌, refl, ◌∙◌, Bool, true, false, not, ◌&&◌, List, [], ◌∷◌, map, arith, ◌==◌,
  if◌then◌else◌, length,
}
use familyplanner.Kiosk.Reload.{reload_hour, Browser, tick, loaded, step, run, opened}

-- How often a list of hours enters the reload hour; `was` says whether it was that hour before.
abbrev pub entries : Bool → List ℕ → ℕ
entries was [] = 0
entries was (h ∷ hs) =
    (if (h == reload_hour) && not was then 1 else 0) + entries (h == reload_hour) hs

run-ticks :
    (hs : List ℕ) (b : Browser)
    → (run b (map tick hs)).reloads ≡ b.reloads + entries b.page.reloaded_today hs
unfolding run step
run-ticks [] b = omega arith
run-ticks (h ∷ hs) b = ground (arith, run-ticks hs (step b (tick h)))

-- While the page stays the same, the ticks call `location.reload()` exactly as often as the local
-- time enters the reload hour, however many ticks fall into that hour.
pub reloads-eq-entries : (hs : List ℕ) → (run opened (map tick hs)).reloads ≡ entries false hs
reloads-eq-entries hs = run-ticks hs opened ∙ (omega arith)

step-loaded :
    (b : Browser)
    → b.pending ≡ true
    → ((step b (loaded reload_hour)).pending ≡ true)
      × ((step b (loaded reload_hour)).reloads ≡ b.reloads + 1)
unfolding step
step-loaded b h = ground arith

abbrev pub AllInReloadHour : List ℕ → Type 0
AllInReloadHour [] = Unit
AllInReloadHour (h ∷ hs) = (h ≡ reload_hour) × AllInReloadHour hs

loop :
    (hs : List ℕ) (b : Browser)
    → b.pending ≡ true
    → AllInReloadHour hs
    → (run b (map loaded hs)).reloads ≡ b.reloads + length hs
unfolding run
loop [] b p a = omega arith
loop (h ∷ hs) b p (e, a) =
    let (p', n) = step-loaded b p in ground (arith, loop hs (step b (loaded reload_hour)))

-- The variable that guards the reload is lost with the page: a tick in the reload hour asks for a
-- reload, and every page that finishes loading within that hour asks for one more.
pub reloads-repeat :
    (hs : List ℕ)
    → AllInReloadHour hs
    → (run opened (tick reload_hour ∷ map loaded hs)).reloads ≡ 1 + length hs
unfolding run step
reloads-repeat hs a = loop hs (step opened (tick reload_hour)) refl a
