-- ===== src/VoiceClock/Snooze/Painted.antt =====
-- What the button shows.
use familyplanner.Prelude.{
  ◌≡◌, refl, sym, ap, ◌∙◌, &&-false, Bool, true, false, not, ◌&&◌, some, List, [], ◌∷◌,
  if◌then◌else◌, subst,
}
use familyplanner.VoiceClock.{snoozed, fp_snooze}
use familyplanner.VoiceClock.Announce.{fp_snooze-flips}
use familyplanner.VoiceClock.Snooze.{
  Kiosk, is_snoozed, paint_if, paint_snooze, write_if, hush_if, press, start, Event, pressed,
  reloaded, spoke, step, run,
}

-- The storage can be read and written as told, the button is there, and the chimes are muted as told.
pub record Holds (r w b : Bool) (k : Kiosk) : Type 0 where
  pub reads : k.readable ≡ r
  pub writes : k.writable ≡ w
  pub there : k.button ≡ true
  pub mutes : is_snoozed k ≡ b

abbrev pub Shows : Bool → Bool → Bool → Kiosk → Type 0
Shows r w b k = Holds r w b k × (k.icon ≡ b)

-- One press mutes and unmutes in turn, where the storage works.
abbrev pub pressed_on : Bool → Bool → Bool
pressed_on true b = not b
pressed_on false b = b

abbrev pub after : Event → Bool → Bool → Bool
after pressed works b = pressed_on works b
after reloaded works b = b
after spoke works b = b

abbrev pub after_all : List Event → Bool → Bool → Bool
after_all [] works b = b
after_all (e ∷ es) works b = after_all es works (after e works b)

paint_if-Shows :
    {r w b : Bool} (c : Bool) (k : Kiosk) → c ≡ true → Holds r w b k → Shows r w b (paint_if c k)
unfolding paint_if is_snoozed
paint_if-Shows true k e h =
    (record { reads = h.reads; writes = h.writes; there = h.there; mutes = h.mutes }, h.mutes)
paint_if-Shows false k e h = absurd (cc e)

paint-Shows : {r w b : Bool} (k : Kiosk) → Holds r w b k → Shows r w b (paint_snooze k)
unfolding paint_snooze
paint-Shows k h = paint_if-Shows k.button k h.there h

hush-Holds : {r w b : Bool} (c : Bool) (k : Kiosk) → Holds r w b k → Holds r w b (hush_if c k)
unfolding hush_if is_snoozed
hush-Holds false k h = h
hush-Holds true k h = record {
  reads = h.reads;
  writes = h.writes;
  there = h.there;
  mutes = h.mutes;
}

is_snoozed-readable : (k : Kiosk) → k.readable ≡ true → is_snoozed k ≡ snoozed k.stored
unfolding is_snoozed
is_snoozed-readable k e = rw e refl

is_snoozed-unreadable : (k : Kiosk) → k.readable ≡ false → is_snoozed k ≡ false
unfolding is_snoozed
is_snoozed-unreadable k e = rw e refl

-- What a press stores is read as the opposite.
flipped : (k : Kiosk) → k.readable ≡ true → is_snoozed (write_if true k) ≡ not (is_snoozed k)
unfolding write_if fp_snooze
flipped k e =
    let m = is_snoozed-readable k e in
    is_snoozed-readable (write_if true k) e
    ∙ (ap (λ b. snoozed (some (if b then "0" else "1"))) m
        ∙ (fp_snooze-flips k.stored ∙ ap not (sym m)))

write_if-Holds :
    {b : Bool} (r w : Bool) (k : Kiosk)
    → Holds r w b k
    → Holds r w (pressed_on (r && w) b) (write_if w k)
unfolding write_if
write_if-Holds r false k h = rw (&&-false r) h
write_if-Holds true true k h = record {
  reads = h.reads;
  writes = h.writes;
  there = h.there;
  mutes = flipped k h.reads ∙ ap not h.mutes;
}
write_if-Holds false true k h = record {
  reads = h.reads;
  writes = h.writes;
  there = h.there;
  mutes =
      is_snoozed-unreadable (write_if true k) h.reads
      ∙ (sym (is_snoozed-unreadable k h.reads) ∙ h.mutes);
}

write-Holds :
    {r w b : Bool} (k : Kiosk)
    → Holds r w b k
    → Holds r w (pressed_on (r && w) b) (write_if k.writable k)
write-Holds {r} {w} {b} k h =
    subst (λ c. Holds r w (pressed_on (r && w) b) (write_if c k)) (sym h.writes)
      (write_if-Holds r w k h)

step-Shows :
    {r w b : Bool} (e : Event) (k : Kiosk)
    → Shows r w b k
    → Shows r w (after e (r && w) b) (step e k)
unfolding step press start is_snoozed
step-Shows pressed k h =
    let v = write_if k.writable k in
    paint-Shows (hush_if (is_snoozed v) v) (hush-Holds (is_snoozed v) v (write-Holds k h.0))
step-Shows reloaded k h =
    paint-Shows (record k { icon = false; speaking = false })
      (record { reads = h.0.reads; writes = h.0.writes; there = h.0.there; mutes = h.0.mutes })
step-Shows spoke k h =
    (record { reads = h.0.reads; writes = h.0.writes; there = h.0.there; mutes = h.0.mutes }, h.1)

run-Shows :
    {r w b : Bool} (es : List Event) (k : Kiosk)
    → Shows r w b k
    → Shows r w (after_all es (r && w) b) (run es k)
unfolding run
run-Shows [] k h = h
run-Shows {r} {w} (e ∷ es) k h = run-Shows es (step e k) (step-Shows e k h)

-- On a page that has the button, however presses, restarts of the page and sentences followed one another
-- since a start, the button shows whether the chimes are muted: by what was stored then, turned over by
-- every press where the storage can be read and written, and as it was where it cannot.
pub button_shows :
    (es : List Event) (k : Kiosk)
    → k.button ≡ true
    → ((run es (start k)).icon ≡ is_snoozed (run es (start k)))
      × (is_snoozed (run es (start k)) ≡ after_all es (k.readable && k.writable) (is_snoozed k))
unfolding start is_snoozed
button_shows es k t =
    let h =
      paint-Shows {r = k.readable} {w = k.writable} {b = is_snoozed k}
        (record k { icon = false; speaking = false })
        (record { reads = refl; writes = refl; there = t; mutes = refl }) in
    let s = run-Shows es (start k) h in (s.1 ∙ sym s.0.mutes, s.0.mutes)
