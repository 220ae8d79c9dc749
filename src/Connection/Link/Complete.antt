-- ===== src/Connection/Link/Complete.antt =====
-- A completion keeps the invariant of a link.
use socket_server_lib.Prelude.{
  ℕ, ◌-◌, ◌≤◌, ◌≡◌, ◌≢◌, refl, sym, ap, ◌∙◌, true, Option, none, some, List, [], ◌∷◌, ◌++◌,
  append_assoc, arith, length, take, drop, length-take, length-append, take-append-drop,
  take-append_of_le, nonzero, is_zero, ℕ_discrete,
}
use socket_server_lib.PacketData.{PacketData}
use socket_server_lib.SendBuffer
use socket_server_lib.SendBuffer.{SendBuffer, max_tcp_segment_size}
use socket_server_lib.SendBuffer.Queue.{pending}
use socket_server_lib.SendBuffer.Ring.{Holds}
use socket_server_lib.SendBuffer.Pop.{Popped, pop-Popped}
use socket_server_lib.Connection.Send.{drained, tcp_send_completed-last, tcp_send_completed-next}
use socket_server_lib.Connection.{Connection, tcp_send_completed}
use socket_server_lib.Connection.Link.{Link, complete, submitted, completed, step}
use socket_server_lib.Connection.Link.Invariant.{
  Sendable, send_tcp_io-Sending, Inv, Sending-Inv, Stepped,
}

-- What went out and what waits, when `n` of the outstanding bytes have left.
moved :
    (out rest : List ℕ) (n : ℕ) (w q : List ℕ)
    → out ++ rest ≡ q
    → n ≤ length out
    → (w ++ take n out) ++ drop n q ≡ w ++ q
moved out rest n w q e h =
    append_assoc w (take n out) (drop n q)
    ∙ ap (◌++◌ w) (
        ap (λ t. t ++ drop n q) (sym (take-append_of_le n out rest h) ∙ ap (take n) e)
        ∙ take-append-drop n q)

-- `n` bytes of the send under way have gone out.
abbrev acknowledged : Link → ℕ → Connection → Option (List (List ℕ)) → Link
acknowledged l n c bufs = record l {
  conn = c;
  outstanding = submitted [] true bufs;
  wire = l.wire ++ take n l.outstanding;
}

completed_by-Inv :
    {l : Link} {q : List PacketData} (n : ℕ) (s : SendBuffer) (released q' : List PacketData)
    → Inv l q
    → n ≤ length l.outstanding
    → SendBuffer.pop l.conn.send_buffer n ≡ some (s, released)
    → Holds s q'
    → Popped q n q' released
    → (c : Connection) × (r : List PacketData) × (bufs : Option (List (List ℕ)))
      × (tcp_send_completed l.conn n true ≡ some (c, released, bufs))
      × Inv (acknowledged l n c bufs) r
completed_by-Inv {l} {q} n s released [] i h e ring w = (
  drained l.conn s,
  [],
  none,
  tcp_send_completed-last l.conn n e ring refl,
  record {
    sendable = record { ring = ring; valid = tt; sized = tt };
    in_order =
        ap (◌++◌ (l.wire ++ take n l.outstanding)) w.left
        ∙ moved l.outstanding i.front.0 n l.wire (pending q) i.front.1 h
        ∙ i.in_order;
    front = ([], refl);
    idle = λ z. refl;
    busy = λ z. absurd (omega (arith, z));
  },
)
completed_by-Inv {l} {q} n s released (x ∷ r) i h e ring w =
    let ready : Sendable (drained l.conn s) (x ∷ r) = record {
      ring = ring;
      valid = w.valid;
      sized = w.sized max_tcp_segment_size i.sendable.sized;
    } in
    let (c', bufs, e', sending) = send_tcp_io-Sending (drained l.conn s) true x r ready in
    (
      c',
      x ∷ r,
      some bufs,
      tcp_send_completed-next l.conn n e ring (omega arith) e',
      Sending-Inv ready sending refl refl (
          ap (◌++◌ (l.wire ++ take n l.outstanding)) w.left
          ∙ moved l.outstanding i.front.0 n l.wire (pending q) i.front.1 h
          ∙ i.in_order),
    )

complete_le : (extra : ℕ) (out : List ℕ) → completed extra out ≤ length out
unfolding completed
complete_le extra out = omega arith

-- A completion while bytes wait gets at least one of them out.
pub record Progress (l m : Link) (q r : List PacketData) : Type 0 where
  pub same_accepted : m.accepted ≡ l.accepted
  pub fewer : length (pending r) ≤ length (pending q) - 1

acknowledged-Progress :
    {l : Link} {q r : List PacketData} (extra : ℕ) (c : Connection) (bufs : Option (List (List ℕ)))
    → Inv l q
    → Inv (acknowledged l (completed extra l.outstanding) c bufs) r
    → length l.outstanding ≢ 0
    → Progress l (acknowledged l (completed extra l.outstanding) c bufs) q r
unfolding completed
acknowledged-Progress {l} {q} {r} extra c bufs i j ne =
    let n : ℕ = completed extra l.outstanding in
    record {
      same_accepted = refl;
      fewer = omega (
        arith,
        ap (length {A = ℕ}) i.in_order,
        ap (length {A = ℕ}) j.in_order,
        length-append l.wire (pending q),
        length-append (l.wire ++ take n l.outstanding) (pending r),
        length-append l.wire (take n l.outstanding),
        length-take n l.outstanding,
      );
    }

-- With no byte outstanding nothing waits.
pub quiet : {l : Link} {q : List PacketData} → Inv l q → length l.outstanding ≡ 0 → q ≡ []
quiet {l} {q} i e = i.idle (ground (arith, i.busy))

pub complete-Progress :
    {l : Link} {q : List PacketData} (extra : ℕ)
    → Inv l q
    → (w : Stepped l (complete extra true)) × Progress l w.0 q w.1
unfolding step
complete-Progress {l} {q} extra i = elim (ℕ_discrete (length l.outstanding) 0) [
  | yes none_left ↦ (
    (l, q, rw (is_zero (length l.outstanding) none_left), i),
    record {
      same_accepted = refl;
      fewer = omega (arith, ap (λ x. length (pending x)) (quiet i none_left));
    },
  )
  | no some_left ↦
      let n : ℕ = completed extra l.outstanding in
      let h = complete_le extra l.outstanding in
      let (s, released, q', e, ring, same, w) = pop-Popped n i.sendable.ring i.sendable.valid in
      let (c, r, bufs, e', j) = completed_by-Inv n s released q' i h e ring w in
      (
        (acknowledged l n c bufs, r, rw (nonzero (length l.outstanding) some_left, e'), j),
        acknowledged-Progress extra c bufs i j some_left,
      )
]

pub complete-Inv :
    {l : Link} {q : List PacketData} (extra : ℕ) → Inv l q → Stepped l (complete extra true)
complete-Inv extra i = (complete-Progress extra i).0
