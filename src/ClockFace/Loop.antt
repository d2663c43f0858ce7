-- ===== src/ClockFace/Loop.antt =====
-- The clocks on a page, clockface.js: `fpSetupClocks`, `setupClock` and the one animation that turns all
-- hands. An element is a number; what is in the document is asked of it anew at every frame.
pub mod Laws
mod Facts
use Prim.Native.String.{String}
use familyplanner.Prelude.{
  ℕ, zero, suc, ◌+◌, ◌%◌, Bool, true, false, Option, none, some, List, [], ◌∷◌, ◌++◌, if◌then◌else◌,
  ◌==◌, length, get_elem?, ◌||◌,
}

-- A `.w-clock`: the element, and the facts of its `data-clock`.
pub record Dial : Type 0 where
  pub element : ℕ
  pub facts : List String

pub record Page : Type 0 where
  pub set_up : List ℕ  -- the elements that have `__fpClock`
  pub clocks : List ℕ
  pub animating : Bool
  pub frames : ℕ  -- the frames that were requested and have not run
  pub fact_counter : ℕ
  pub told : List (ℕ × Option String)  -- the facts that elements got, the last one first

pub mem : ℕ → List ℕ → Bool
mem a [] = false
mem a (x ∷ xs) = x == a || mem a xs

-- `startAnim()`
pub start_if : Bool → Page → Page
start_if true p = p
start_if false p = record p { animating = true; frames = p.frames + 1 }

pub start_anim : Page → Page
start_anim p = start_if p.animating p

pub tell : ℕ → List String → Page → Page
tell e [] p = p
tell e (f ∷ fs) p = record p {
  told = (e, get_elem? (f ∷ fs) (p.fact_counter % length (f ∷ fs))) ∷ p.told;
  fact_counter = p.fact_counter + 1;
}

pub mount : ℕ → Page → Page
mount e p = start_anim (record p { clocks = p.clocks ++ (e ∷ []) })

pub setup_clock : Dial → Page → Page
setup_clock d p =
    mount d.element (tell d.element d.facts (record p { set_up = d.element ∷ p.set_up }))

pub setup_unless : Bool → Dial → Page → Page
setup_unless true d p = p
setup_unless false d p = setup_clock d p

-- `fpSetupClocks`, for the dials in the root.
pub setup_clocks : List Dial → Page → Page
setup_clocks [] p = p
setup_clocks (d ∷ ds) p = setup_clocks ds (setup_unless (mem d.element p.set_up) d p)

pub keep : (ℕ → Bool) → List ℕ → List ℕ
keep attached [] = []
keep attached (x ∷ xs) = let rest = keep attached xs in if attached x then x ∷ rest else rest

-- The end of a frame, with the clocks that are left.
pub go_on : List ℕ → Page → Page
go_on [] p = record p { clocks = []; animating = false }
go_on (c ∷ cs) p = record p { clocks = c ∷ cs; frames = p.frames + 1 }

pub frame_if : ℕ → (ℕ → Bool) → Page → Page
frame_if n attached p = elim n [
  | zero ↦ p
  | suc k ↦ go_on (keep attached p.clocks) (record p { frames = k })
]

-- A frame runs, if one was requested.
pub frame : (ℕ → Bool) → Page → Page
frame attached p = frame_if p.frames attached p

pub data Event : Type 0 where
  swapped : List Dial → Event
  animated : (ℕ → Bool) → Event

pub step : Event → Page → Page
step (swapped ds) p = setup_clocks ds p
step (animated attached) p = frame attached p

pub run : List Event → Page → Page
run [] p = p
run (e ∷ es) p = run es (step e p)
