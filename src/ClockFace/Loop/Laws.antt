-- ===== src/ClockFace/Loop/Laws.antt =====
-- One animation, for as long as there is a clock; and every clock is set up once.
use Prim.Native.String.{String}
use familyplanner.Prelude.{
  ℕ, zero, suc, ◌≡◌, refl, ◌∙◌, Bool, true, false, List, [], ◌∷◌, ◌++◌, if◌then◌else◌, arith,
  Bool-cases, inl, inr,
}
use familyplanner.ClockFace.Loop.{
  Dial, Page, mem, start_if, start_anim, tell, mount, setup_clock, setup_unless, setup_clocks, keep,
  go_on, frame_if, frame, Event, swapped, animated, step, run,
}

-- Exactly one frame is requested while the hands are animated, and none otherwise; and where there is
-- a clock they are animated.
pub record IsValid (p : Page) : Type 0 where
  pub one_frame : p.frames ≡ (if p.animating then 1 else 0)
  pub running : p.animating ≡ false → p.clocks ≡ []

start_if-IsValid :
    (b : Bool) (cs : List ℕ) (p : Page)
    → p.animating ≡ b
    → IsValid p
    → IsValid (start_if b (record p { clocks = cs }))
unfolding start_if
start_if-IsValid true cs p e v = record { one_frame = v.one_frame; running = λ f. cc }
start_if-IsValid false cs p e v = record {
  one_frame = ground (arith, v.one_frame, e);
  running = λ f. cc;
}

tell-IsValid : (e : ℕ) (fs : List String) (p : Page) → IsValid p → IsValid (tell e fs p)
unfolding tell
tell-IsValid e [] p v = v
tell-IsValid e (f ∷ fs) p v = record { one_frame = v.one_frame; running = v.running }

setup_unless-IsValid : (b : Bool) (d : Dial) (p : Page) → IsValid p → IsValid (setup_unless b d p)
unfolding setup_unless setup_clock mount start_anim
setup_unless-IsValid true d p v = v
setup_unless-IsValid false d p v =
    let t = tell d.element d.facts (record p { set_up = d.element ∷ p.set_up }) in
    start_if-IsValid t.animating (t.clocks ++ (d.element ∷ [])) t refl (
      tell-IsValid d.element d.facts (record p { set_up = d.element ∷ p.set_up })
        (record { one_frame = v.one_frame; running = v.running }))

pub setup_clocks-IsValid : (ds : List Dial) (p : Page) → IsValid p → IsValid (setup_clocks ds p)
unfolding setup_clocks
setup_clocks-IsValid [] p v = v
setup_clocks-IsValid (d ∷ ds) p v =
    setup_clocks-IsValid ds (setup_unless (mem d.element p.set_up) d p)
      (setup_unless-IsValid (mem d.element p.set_up) d p v)

go_on-IsValid : (cs : List ℕ) (p : Page) → p.frames ≡ 0 → p.animating ≡ true → IsValid (go_on cs p)
unfolding go_on
go_on-IsValid [] p f a = record { one_frame = f; running = λ _. refl }
go_on-IsValid (c ∷ cs) p f a = record { one_frame = rw (f, a) refl; running = λ b. cc }

frame_if-IsValid :
    (n : ℕ) (attached : ℕ → Bool) (p : Page)
    → p.frames ≡ n
    → IsValid p
    → IsValid (frame_if n attached p)
unfolding frame_if
frame_if-IsValid zero attached p e v = v
frame_if-IsValid (suc n) attached p e v =
    go_on-IsValid (keep attached p.clocks) (record p { frames = n })
      (ground (arith, v.one_frame, e)) (ground (arith, v.one_frame, e))

step-IsValid : (e : Event) (p : Page) → IsValid p → IsValid (step e p)
unfolding step frame
step-IsValid (swapped ds) p v = setup_clocks-IsValid ds p v
step-IsValid (animated attached) p v = frame_if-IsValid p.frames attached p refl v

-- However often views are swapped in and frames run, in any order: exactly one frame is requested
-- while the hands are animated and none otherwise, and where there is a clock they are animated.
pub loop-IsValid : (es : List Event) (p : Page) → IsValid p → IsValid (run es p)
unfolding run
loop-IsValid [] p v = v
loop-IsValid (e ∷ es) p v = loop-IsValid es (step e p) (step-IsValid e p v)

start_if-set_up : (b : Bool) (p : Page) → (start_if b p).set_up ≡ p.set_up
unfolding start_if
start_if-set_up true p = refl
start_if-set_up false p = refl

tell-set_up : (e : ℕ) (fs : List String) (p : Page) → (tell e fs p).set_up ≡ p.set_up
unfolding tell
tell-set_up e [] p = refl
tell-set_up e (f ∷ fs) p = refl

pub setup_clock-set_up : (d : Dial) (p : Page) → (setup_clock d p).set_up ≡ d.element ∷ p.set_up
unfolding setup_clock mount start_anim
setup_clock-set_up d p =
    start_if-set_up _ _ ∙ tell-set_up d.element d.facts (record p { set_up = d.element ∷ p.set_up })

-- The elements that are set up after one dial was looked at.
mem-setup_unless :
    (a : ℕ) (d : Dial) (p : Page)
    → let q = setup_unless (mem d.element p.set_up) d p in
      (mem d.element q.set_up ≡ true) × (mem a p.set_up ≡ true → mem a q.set_up ≡ true)
unfolding setup_unless mem
mem-setup_unless a d p = elim (Bool-cases (mem d.element p.set_up)) [
  | inl e ↦ rw e (e, λ h. h)
  | inr e ↦ rw (e, setup_clock-set_up d p) (ground arith, λ h. ground arith)
]

mem-setup_clocks :
    (a : ℕ) (ds : List Dial) (p : Page)
    → mem a p.set_up ≡ true
    → mem a (setup_clocks ds p).set_up ≡ true
unfolding setup_clocks
mem-setup_clocks a [] p h = h
mem-setup_clocks a (d ∷ ds) p h =
    mem-setup_clocks a ds (setup_unless (mem d.element p.set_up) d p) ((mem-setup_unless a d p).1 h)

-- All dials of a root are set up.
abbrev pub AllSetUp : List Dial → Page → Type 0
AllSetUp [] p = Unit
AllSetUp (d ∷ ds) p = (mem d.element p.set_up ≡ true) × AllSetUp ds p

pub setup_clocks-AllSetUp : (ds : List Dial) (p : Page) → AllSetUp ds (setup_clocks ds p)
unfolding setup_clocks
setup_clocks-AllSetUp [] p = tt
setup_clocks-AllSetUp (d ∷ ds) p =
    let q = setup_unless (mem d.element p.set_up) d p in
    (mem-setup_clocks d.element ds q (mem-setup_unless d.element d p).0, setup_clocks-AllSetUp ds q)

setup_clocks-same : (ds : List Dial) (p : Page) → AllSetUp ds p → setup_clocks ds p ≡ p
unfolding setup_clocks setup_unless
setup_clocks-same [] p h = refl
setup_clocks-same (d ∷ ds) p h = rw h.0 (setup_clocks-same ds p h.1)

-- Setting up the clocks of a view a second time changes nothing: no clock is mounted twice, and no fact
-- is used up.
pub setup_clocks_twice :
    (ds : List Dial) (p : Page) → setup_clocks ds (setup_clocks ds p) ≡ setup_clocks ds p
setup_clocks_twice ds p = setup_clocks-same ds (setup_clocks ds p) (setup_clocks-AllSetUp ds p)
