-- ===== src/Server/Devices/Ordered.antt =====
-- What the buffer of a stream does to the commands for its page.
use Prim.Native.String.{String}
use mathlib.Core.List.{append_assoc, append-nil}
use familyplanner.Prelude.{
  ℕ, ◌≤◌, ◌≡◌, refl, sym, ap, ◌∙◌, Bool, some, List, [], ◌∷◌, ◌++◌, length, length-append,
  if◌then◌else◌, ltb, ltb→lt, arith, Bool-cases, inl, inr,
}
use familyplanner.Server.Rotation.{Item, Command}
use familyplanner.Server.Devices.{Conn, new_conn, obey, buffer, take_signal, younger, take_cmd}

-- What happens to one connection.
pub data Use : Type 0 where
  obeyed : Command → Use
  sent : String → Use
  signal_taken cmd_taken : Use

-- The connection, with the commands that were accepted for it and those that its loop has taken.
pub record Logged : Type 0 where
  pub conn : Conn
  pub accepted : List String
  pub taken : List String

abbrev pub first_cmd : List String → List String
first_cmd [] = []
first_cmd (t ∷ ts) = t ∷ []

abbrev pub log_sent : String → Conn × Bool → Logged → Logged
log_sent t (c, b) l = record l {
  conn = c;
  accepted = if b then l.accepted ++ (t ∷ []) else l.accepted;
}

abbrev pub use_conn : Use → Logged → Logged
use_conn (obeyed k) l = record l { conn = (obey (some k) l.conn).0 }
use_conn (sent t) l = log_sent t (buffer t l.conn) l
use_conn signal_taken l = record l { conn = (take_signal l.conn).0 }
use_conn cmd_taken l = record l {
  conn = (take_cmd l.conn).0;
  taken = l.taken ++ first_cmd l.conn.cmds;
}

abbrev pub use_all : List Use → Logged → Logged
use_all [] l = l
use_all (u ∷ us) l = use_all us (use_conn u l)

abbrev pub unused : ℕ → List Item → Logged
unused d its = record { conn = new_conn d its; accepted = []; taken = [] }

record IsOrdered (l : Logged) : Type 0 where
  kept : l.accepted ≡ l.taken ++ l.conn.cmds
  held : length l.conn.cmds ≤ 8

sent-IsOrdered :
    (t : String) (l : Logged) → IsOrdered l → IsOrdered (log_sent t (buffer t l.conn) l)
unfolding buffer
sent-IsOrdered t l o = elim (Bool-cases (ltb (length l.conn.cmds) 8)) [
  | inl e ↦ rw e (record {
    kept = ap (λ xs. xs ++ (t ∷ [])) o.kept ∙ append_assoc l.taken l.conn.cmds (t ∷ []);
    held = omega (arith, length-append l.conn.cmds (t ∷ []), ltb→lt (length l.conn.cmds) 8 e);
  })
  | inr e ↦ rw e (record { kept = o.kept; held = o.held })
]

taken-kept :
    (ts done all : List String) → all ≡ done ++ ts → all ≡ (done ++ first_cmd ts) ++ younger ts
unfolding younger
taken-kept [] done all e = e ∙ sym (append-nil (done ++ []))
taken-kept (t ∷ ts) done all e = e ∙ sym (append_assoc done (t ∷ []) ts)

taken-held : (ts : List String) → length ts ≤ 8 → length (younger ts) ≤ 8
unfolding younger
taken-held [] h = h
taken-held (t ∷ ts) h = omega arith

use_conn-IsOrdered : (u : Use) (l : Logged) → IsOrdered l → IsOrdered (use_conn u l)
unfolding obey take_signal take_cmd
use_conn-IsOrdered (obeyed k) l o = record { kept = o.kept; held = o.held }
use_conn-IsOrdered (sent t) l o = sent-IsOrdered t l o
use_conn-IsOrdered signal_taken l o = record { kept = o.kept; held = o.held }
use_conn-IsOrdered cmd_taken l o = record {
  kept = taken-kept l.conn.cmds l.taken l.accepted o.kept;
  held = taken-held l.conn.cmds o.held;
}

use_all-IsOrdered : (us : List Use) (l : Logged) → IsOrdered l → IsOrdered (use_all us l)
use_all-IsOrdered [] l o = o
use_all-IsOrdered (u ∷ us) l o = use_all-IsOrdered us (use_conn u l) (use_conn-IsOrdered u l o)

-- From its connection on, the loop of a stream takes the commands that were accepted for its page in their
-- order and each of them once: those that it has not taken yet are the ones that wait, which are never more
-- than eight.
pub taken_in_order :
    (d : ℕ) (its : List Item) (us : List Use)
    → let l = use_all us (unused d its) in
      (l.accepted ≡ l.taken ++ l.conn.cmds) × (length l.conn.cmds ≤ 8)
unfolding new_conn
taken_in_order d its us =
    let o = use_all-IsOrdered us (unused d its) (record { kept = refl; held = omega arith }) in
    (o.kept, o.held)
