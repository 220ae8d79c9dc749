-- ===== src/Connection/Link/Invariant.antt =====
-- What ties the ring of a connection to the send under way and to the bytes that went out.
use socket_server_lib.Prelude.{
  ℕ, zero, suc, ◌<◌, ◌≡◌, refl, sym, ap, ◌∙◌, subst, Bool, some, List, [], ◌∷◌, ◌++◌, map, arith,
  length, take, drop, length-take, length-append,
}
use socket_server_lib.PacketData.{PacketData, bytes, packet_size}
use socket_server_lib.SendBuffer.{max_tcp_segment_size}
use socket_server_lib.SendBuffer.Queue.{
  pending, AllValid, AllSized, AllSmall-of_AllSized, joined, joined-take,
}
use socket_server_lib.SendBuffer.Ring.{Holds}
use socket_server_lib.SendBuffer.Gather.{Batch-pos, get_wsabuf-Batch}
use socket_server_lib.Connection.{Connection, send_tcp_io, first_length, max_wsabufs}
use socket_server_lib.Connection.Link.{Link, Event, step, started}

-- A queue that the connection can send: valid packets of one byte to a segment each.
pub record Sendable (c : Connection) (q : List PacketData) : Type 0 where
  pub ring : Holds c.send_buffer q
  pub valid : AllValid q
  pub sized : AllSized max_tcp_segment_size q

-- A send that is started with packets waiting takes along the front of what waits, at least one
-- byte of it, and leaves a mark that a send is under way.
pub record Sending (c c' : Connection) (q : List PacketData) (bufs : List (List ℕ)) : Type 0 where
  pub only_mark : c' ≡ record c { in_flight = c'.in_flight }
  pub same_ring : c'.send_buffer ≡ c.send_buffer
  pub same_state : c'.connected ≡ c.connected
  pub front : (rest : List ℕ) × (joined bufs ++ rest ≡ pending q)
  pub some_bytes : 0 < length (joined bufs)
  pub marked : 0 < c'.in_flight

pub send_tcp_io-Sending :
    (c : Connection) (started : Bool) (p : PacketData) (q : List PacketData)
    → Sendable c (p ∷ q)
    → (c' : Connection) × (bufs : List (List ℕ)) × (send_tcp_io c started
        ≡ some (started, c', bufs))
      × Sending c c' (p ∷ q) bufs
unfolding send_tcp_io
send_tcp_io-Sending c started p q s =
    let (k, e, b) =
      get_wsabuf-Batch max_wsabufs s.ring
        (AllSmall-of_AllSized {m = max_tcp_segment_size} packet_size (p ∷ q) (omega arith) s.sized)
        (omega arith) in
    (
      record c { in_flight = first_length (map bytes (take k (p ∷ q))) },
      map bytes (take k (p ∷ q)),
      rw e,
      first_packet k (Batch-pos b (omega arith) s.sized.1),
    )
  where
    len : length (bytes p) ≡ p.size
    len = omega (arith, length-take {0} p.size p.buf, s.valid.0.allocated, s.valid.0.fits)

    first_packet :
        (k : ℕ)
        → 0 < k
        → Sending c
            (record c { in_flight = first_length (map bytes (take k (p ∷ q))) })
            (p ∷ q)
            (map bytes (take k (p ∷ q)))
    first_packet zero h = absurd (omega arith)
    first_packet (suc k) h = record {
      only_mark = refl;
      same_ring = refl;
      same_state = refl;
      front = (pending (drop (suc k) (p ∷ q)), joined-take (suc k) (p ∷ q));
      some_bytes =
          omega
            (arith, len, s.sized.0, length-append {0} (bytes p) (joined (map bytes (take k q))));
      marked = omega (arith, len, s.sized.0);
    }

-- `q` waits; the outstanding bytes are its front, and there are some unless nothing waits.
pub record Inv (l : Link) (q : List PacketData) : Type 0 where
  pub sendable : Sendable l.conn q
  pub in_order : l.wire ++ pending q ≡ l.accepted
  pub front : (rest : List ℕ) × (l.outstanding ++ rest ≡ pending q)
  pub idle : l.conn.in_flight ≡ 0 → q ≡ []
  pub busy : 0 < l.conn.in_flight → 0 < length l.outstanding

-- A link whose connection has just started a send with the queue `p ∷ q`.
pub Sending-Inv :
    {l : Link} {c c' : Connection} {p : PacketData} {q : List PacketData} {bufs : List (List ℕ)}
    → Sendable c (p ∷ q)
    → Sending c c' (p ∷ q) bufs
    → l.conn ≡ c'
    → l.outstanding ≡ joined bufs
    → l.wire ++ pending (p ∷ q) ≡ l.accepted
    → Inv l (p ∷ q)
Sending-Inv {l} {c} {c'} {p} {q} {bufs} s w e o order = record {
  sendable = record {
    ring = subst (λ b. Holds b (p ∷ q)) (sym (ap (λ x. x.send_buffer) e ∙ w.same_ring)) s.ring;
    valid = s.valid;
    sized = s.sized;
  };
  in_order = order;
  front = (w.front.0, ap (λ b. b ++ w.front.0) o ∙ w.front.1);
  idle = λ z. absurd (omega (arith, w.marked, ap (λ x. x.in_flight) e));
  busy = λ z. omega (arith, w.some_bytes, ap (length {A = ℕ}) o);
}

-- What one step gives: a link that a queue explains again, and the queue.
abbrev pub Stepped : Link → Event → Type 0
Stepped l e = (m : Link) × (q : List PacketData) × (step l e ≡ some m) × Inv m q
