-- ===== src/Server/Devices/Tests.antt =====
-- A television that reconnects, and another device.
use familyplanner.Prelude.{◌≡◌, refl, true, false, some, List, [], ◌∷◌, get_elem?, pos, arith}
use familyplanner.Server.Rotation.{Item, cmd_next, cmd_pause, cmd_goto, command, new_state}
use familyplanner.Server.Devices.{
  Conn, Manager, new_manager, connect, connects, releases, issues, sends, takes_signal, takes_cmd,
  Op, operate_all, issue, new_conn, release, release_by, with_device, with_entry, entry, is_entry,
}
use familyplanner.Server.Devices.Reached.{stays_reached}

abbrev screens : List Item
screens = record { view = 11; dwell = pos 20 } ∷ record { view = 12; dwell = pos 30 } ∷ []

abbrev first : Manager
first = connect 1 screens new_manager

-- The older stream of the television ends after the newer one has begun.
abbrev late : List Op
late =
    releases 0
    ∷ connects 2 screens
    ∷ issues 2 (some cmd_next)
    ∷ issues 1 (some (cmd_goto 12))
    ∷ sends 1 "mute"
    ∷ takes_signal 1
    ∷ takes_cmd 1
    ∷ releases 2
    ∷ []

stays_reached_example :
    let after = operate_all late (connect 1 screens first) in
    (c : Conn) × ((get_elem? after.conns 1 ≡ some c)
      × (((issue 1 (some cmd_pause) after).1 ≡ true)
          × (get_elem? (issue 1 (some cmd_pause) after).0.conns 1
              ≡ some (record c { state = command cmd_pause c.state; notified = true }))))
unfolding connect new_manager
stays_reached_example = stays_reached 1 screens first late cmd_pause (
  λ e. absurd (omega arith),
  (λ e. absurd (omega arith), (tt, (tt, (tt, (tt, (tt, (λ e. absurd (omega arith), tt))))))),
)

-- When the newer stream of a device has ended, the older one is not reached, although it is open.
older_unreached :
    ((issue 1 (some cmd_next) (release 1 (connect 1 screens first))).1 ≡ false)
    × (get_elem? (release 1 (connect 1 screens first)).conns 0
        ≡ some (record { device = 1; state = new_state screens; notified = false; cmds = [] }))
unfolding issue with_device with_entry release release_by connect entry is_entry new_conn
    new_manager
older_unreached = (refl, refl)
