-- ===== src/Server/Devices/Reached.antt =====
-- Which connection a device is reached by.
use mathlib.Core.Option.{some-injective}
use familyplanner.Prelude.{
  ℕ, ◌<◌, ◌≡◌, ◌≢◌, refl, sym, ap, ◌∙◌, Bool, true, Option, none, some, List, [], ◌∷◌, length,
  length-append, length-set, get_elem?, get_elem?_of_lt, get_elem?-set_self, arith, Bool-cases, inl,
  inr,
}
use familyplanner.Server.Rotation.{Item, Command, command}
use familyplanner.Server.Devices.{
  Conn, Manager, entry, new_conn, connect, is_entry, release_by, release, change, with_conn,
  with_entry, with_device, obey, issue, buffer, send_client_cmd, take_signal, take_cmd, Op,
  connects, releases, issues, sends, takes_signal, takes_cmd, operate, operate_all,
}

-- The device is reached by the connection at the place.
record Reaches (d n : ℕ) (m : Manager) : Type 0 where
  entered : m.devices d ≡ some n
  opened : n < length m.conns

connect-Reaches :
    (d : ℕ) (its : List Item) (m : Manager) → Reaches d (length m.conns) (connect d its m)
unfolding connect entry
connect-Reaches d its m = record {
  entered = ground arith;
  opened = omega (arith, length-append m.conns (new_conn d its ∷ []));
}

entry_other : (e d : ℕ) (v : Option ℕ) (t : ℕ → Option ℕ) → e ≢ d → entry e v t d ≡ t d
unfolding entry
entry_other e d v t z = ground (arith, z)

-- Another device connects.
other_connect-Reaches :
    (e : ℕ) (its : List Item) (d n : ℕ) (m : Manager)
    → e ≢ d
    → Reaches d n m
    → Reaches d n (connect e its m)
unfolding connect
other_connect-Reaches e its d n m z r = record {
  entered = entry_other e d (some (length m.conns)) m.devices z ∙ r.entered;
  opened = omega (arith, length-append m.conns (new_conn e its ∷ []), r.opened);
}

is_entry-some : (k : ℕ) (o : Option ℕ) → is_entry k o ≡ true → o ≡ some k
unfolding is_entry
is_entry-some k none e = cc
is_entry-some k (some i) e = ap some (ground arith)

-- What the entry of a device is, no other connection deletes.
other_device : (d e k n : ℕ) (t : ℕ → Option ℕ) → k ≢ n → t d ≡ some n → t e ≡ some k → e ≢ d
other_device d e k n t z a b = λ q. z (some-injective k n (sym b ∙ ap t q ∙ a))

-- The release of another connection.
freed-Reaches :
    (o : Option Conn) (k d n : ℕ) (m : Manager)
    → k ≢ n
    → Reaches d n m
    → Reaches d n (release_by o k m)
unfolding release_by
freed-Reaches none k d n m z r = r
freed-Reaches (some c) k d n m z r = elim (Bool-cases (is_entry k (m.devices c.device))) [
  | inl t ↦ rw t (record {
    entered =
        entry_other c.device d none m.devices (
          other_device d c.device k n m.devices z r.entered
            (is_entry-some k (m.devices c.device) t))
        ∙ r.entered;
    opened = r.opened;
  })
  | inr t ↦ rw t r
]

changed-Reaches :
    (k : ℕ) (p : Conn × Bool) (d n : ℕ) (m : Manager) → Reaches d n m → Reaches d n (change k p m).0
unfolding change
changed-Reaches k (c, b) d n m r = record {
  entered = r.entered;
  opened = omega (arith, length-set m.conns k c, r.opened);
}

-- What is done to a connection keeps the table.
with_conn-Reaches :
    (f : Conn → Conn × Bool) (k : ℕ) (o : Option Conn) (d n : ℕ) (m : Manager)
    → Reaches d n m
    → Reaches d n (with_conn f k o m).0
unfolding with_conn
with_conn-Reaches f k none d n m r = r
with_conn-Reaches f k (some c) d n m r = changed-Reaches k (f c) d n m r

with_entry-Reaches :
    (f : Conn → Conn × Bool) (o : Option ℕ) (d n : ℕ) (m : Manager)
    → Reaches d n m
    → Reaches d n (with_entry f o m).0
unfolding with_entry
with_entry-Reaches f none d n m r = r
with_entry-Reaches f (some k) d n m r = with_conn-Reaches f k (get_elem? m.conns k) d n m r

-- The device does not connect again, and this stream of it does not end.
abbrev pub IsElsewhere : ℕ → ℕ → Op → Type 0
IsElsewhere d n (connects e its) = e ≢ d
IsElsewhere d n (releases k) = k ≢ n
IsElsewhere d n o = Unit

abbrev pub AreElsewhere : ℕ → ℕ → List Op → Type 0
AreElsewhere d n [] = Unit
AreElsewhere d n (o ∷ os) = IsElsewhere d n o × AreElsewhere d n os

operate-Reaches :
    (o : Op) (d n : ℕ) (m : Manager) → IsElsewhere d n o → Reaches d n m → Reaches d n (operate o m)
unfolding operate release issue send_client_cmd with_device
operate-Reaches (connects e its) d n m u r = other_connect-Reaches e its d n m u r
operate-Reaches (releases k) d n m u r = freed-Reaches (get_elem? m.conns k) k d n m u r
operate-Reaches (issues e k) d n m u r = with_entry-Reaches (obey k) (m.devices e) d n m r
operate-Reaches (sends e t) d n m u r = with_entry-Reaches (buffer t) (m.devices e) d n m r
operate-Reaches (takes_signal k) d n m u r = with_entry-Reaches take_signal (some k) d n m r
operate-Reaches (takes_cmd k) d n m u r = with_entry-Reaches take_cmd (some k) d n m r

operate_all-Reaches :
    (os : List Op) (d n : ℕ) (m : Manager)
    → AreElsewhere d n os
    → Reaches d n m
    → Reaches d n (operate_all os m)
unfolding operate_all
operate_all-Reaches [] d n m u r = r
operate_all-Reaches (o ∷ os) d n m u r =
    operate_all-Reaches os d n (operate o m) u.1 (operate-Reaches o d n m u.0 r)

-- A command to a device that is reached.
reached_obeys :
    (d n : ℕ) (k : Command) (m : Manager)
    → Reaches d n m
    → (c : Conn) × ((get_elem? m.conns n ≡ some c)
        × (((issue d (some k) m).1 ≡ true)
            × (get_elem? (issue d (some k) m).0.conns n
                ≡ some (record c { state = command k c.state; notified = true }))))
unfolding issue with_device with_entry with_conn change obey
reached_obeys d n k m r =
    let (c, e) = get_elem?_of_lt m.conns n r.opened in
    (
      c,
      (
        e,
        rw (r.entered, e)
            (
              refl,
              get_elem?-set_self m.conns n (record c { state = command k c.state; notified = true })
                  r.opened,
            ),
      ),
    )

-- Once a device has connected, and until it connects again or this stream ends, whatever the other streams
-- do, also when the release of an older stream of the device comes late: a command to the device succeeds,
-- is carried out on the state of this stream and leaves it a signal.
pub stays_reached :
    (d : ℕ) (its : List Item) (m : Manager) (os : List Op) (k : Command)
    → AreElsewhere d (length m.conns) os
    → let n = length m.conns in
      let after = operate_all os (connect d its m) in
      (c : Conn) × ((get_elem? after.conns n ≡ some c)
        × (((issue d (some k) after).1 ≡ true)
            × (get_elem? (issue d (some k) after).0.conns n
                ≡ some (record c { state = command k c.state; notified = true }))))
stays_reached d its m os k u =
    reached_obeys d (length m.conns) k (operate_all os (connect d its m))
      (operate_all-Reaches os d (length m.conns) (connect d its m) u (connect-Reaches d its m))
