-- ===== src/VoiceClock/Audio/Single.antt =====
-- One context, which plays.
use familyplanner.Prelude.{◌≡◌, refl, Bool, true, false, none, some, List, [], ◌∷◌, if◌then◌else◌}
use familyplanner.VoiceClock.Audio.{
  Output, create_if, create_unless, resume, audio, unlock_if, unlock, Event, chimed, touched,
  suspended, suspend, step, run,
}

-- A context was made once or never, and only in a browser that has one.
pub data IsSingle : Output → Type 0 where
  without :
      (b l : Bool) → IsSingle (record { supported = b; running = none; created = 0; listening = l })
  with_one :
      (r l : Bool)
      → IsSingle (record { supported = true; running = some r; created = 1; listening = l })

audio-IsSingle : (plays : Bool) (o : Output) → IsSingle o → IsSingle (audio plays o)
unfolding audio create_unless create_if resume
audio-IsSingle plays _ (without true l) = with_one true l
audio-IsSingle plays _ (without false l) = without false l
audio-IsSingle plays _ (with_one r l) = with_one true l

unlisten-IsSingle : (o : Output) → IsSingle o → IsSingle (record o { listening = false })
unlisten-IsSingle _ (without b l) = without b false
unlisten-IsSingle _ (with_one r l) = with_one r false

unlock-IsSingle : (b plays : Bool) (o : Output) → IsSingle o → IsSingle (unlock_if b plays o)
unfolding unlock_if
unlock-IsSingle false plays o v = v
unlock-IsSingle true plays o v = unlisten-IsSingle (audio plays o) (audio-IsSingle plays o v)

step-IsSingle : (e : Event) (o : Output) → IsSingle o → IsSingle (step e o)
unfolding step unlock suspend
step-IsSingle (chimed plays) o v = audio-IsSingle plays o v
step-IsSingle (touched plays) o v = unlock-IsSingle o.listening plays o v
step-IsSingle suspended _ (without b l) = without b l
step-IsSingle suspended _ (with_one r l) = with_one false l

run-IsSingle : (es : List Event) (o : Output) → IsSingle o → IsSingle (run es o)
unfolding run
run-IsSingle [] o v = v
run-IsSingle (e ∷ es) o v = run-IsSingle es (step e o) (step-IsSingle e o v)

audible :
    (plays : Bool) (o : Output)
    → IsSingle o
    → (audio plays o).running ≡ (if o.supported then some true else none)
unfolding audio create_unless create_if resume
audible plays _ (without true l) = refl
audible plays _ (without false l) = refl
audible plays _ (with_one r l) = refl

-- However chimes, pointers, keys and suspensions follow one another, at most one context is made; and a
-- chime at the end finds it running, in every browser that has contexts.
pub one_context :
    (es : List Event) (o : Output) (plays : Bool)
    → IsSingle o
    → IsSingle (run es o)
      × ((audio plays (run es o)).running ≡ (if (run es o).supported then some true else none))
one_context es o plays v = let w = run-IsSingle es o v in (w, audible plays (run es o) w)
