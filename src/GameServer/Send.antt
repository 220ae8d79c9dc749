-- ===== src/GameServer/Send.antt =====
-- An answer that is sent on a connected client's connection with room in its ring is accepted, and
-- waits behind what waited.
use socket_server_lib.Prelude.{
  ℕ, suc, ◌<◌, ◌≡◌, refl, sym, ap, subst, true, Option, none, some, List, [], ◌∷◌, ◌++◌, length,
  ℕ_discrete,
}
use socket_server_lib.PacketData.{PacketData}
use socket_server_lib.SendBuffer.Ring.{Holds}
use socket_server_lib.Connection.{Connection, send_msg_tcp}
use socket_server_lib.Connection.Send.{queued, send_msg_tcp-busy, send_msg_tcp-idle}
use socket_server_lib.Connection.Link.{PacketFits}
use socket_server_lib.Connection.Link.Accept.{queued-Sendable}
use socket_server_lib.Connection.Link.Invariant.{Sendable, send_tcp_io-Sending}

-- `d` is `c` with other things in the ring and under way.
pub record SameReader (c d : Connection) : Type 0 where
  pub same_buffer : d.recv_buffer ≡ c.recv_buffer
  pub same_state : d.connected ≡ c.connected
  pub same_ring_size : d.send_buffer.capacity ≡ c.send_buffer.capacity

-- What `SendMsgTCP` does with `p` on `c`, which had `q` in its ring.
pub record Accepted (c : Connection) (q : List PacketData) (p : PacketData) : Type 0 where
  pub after : Connection
  pub buffers : Option (List (List ℕ))
  pub answered : send_msg_tcp c (some p) true ≡ some (true, after, buffers)
  pub sendable : Sendable after (q ++ (p ∷ []))
  pub same : SameReader c after

-- The queue is not empty, so its first packet is there to be sent.
started_sending :
    (c : Connection) (x : PacketData) (q : List PacketData) (p : PacketData)
    → Sendable (queued c p) (x ∷ q)
    → c.in_flight ≡ 0
    → {r : List PacketData} → Holds c.send_buffer r
    → c.connected ≡ true
    → suc (length r) < c.send_buffer.capacity
    → r ++ (p ∷ []) ≡ x ∷ q
    → Accepted c r p
started_sending c x q p s idle h on room e =
    let (d, bufs, sent, w) = send_tcp_io-Sending (queued c p) true x q s in
    record {
      after = d;
      buffers = some bufs;
      answered = send_msg_tcp-idle c p true h on room idle sent;
      sendable = subst (Sendable d) (sym e) (record {
        ring = subst (λ b. Holds b (x ∷ q)) (sym w.same_ring) s.ring;
        valid = s.valid;
        sized = s.sized;
      });
      same = record {
        same_buffer = ap (λ y. y.recv_buffer) w.only_mark;
        same_state = w.same_state;
        same_ring_size = ap (λ y. y.capacity) w.same_ring;
      };
    }

idle-Accepted :
    (c : Connection) (q : List PacketData) (p : PacketData)
    → Sendable c q
    → PacketFits p
    → c.connected ≡ true
    → suc (length q) < c.send_buffer.capacity
    → c.in_flight ≡ 0
    → Accepted c q p
idle-Accepted c [] p s f on room idle =
    started_sending c p [] p (queued-Sendable p s f room) idle s.ring on room refl
idle-Accepted c (x ∷ q) p s f on room idle =
    started_sending c x (q ++ (p ∷ [])) p (queued-Sendable p s f room) idle s.ring on room refl

pub send_msg_tcp-Accepted :
    {c : Connection} {q : List PacketData} (p : PacketData)
    → Sendable c q
    → PacketFits p
    → c.connected ≡ true
    → suc (length q) < c.send_buffer.capacity
    → Accepted c q p
send_msg_tcp-Accepted {c} {q} p s f on room = elim (ℕ_discrete c.in_flight 0) [
  | no busy ↦ record {
    after = queued c p;
    buffers = none;
    answered = send_msg_tcp-busy c p true s.ring on room busy;
    sendable = queued-Sendable p s f room;
    same = record { same_buffer = refl; same_state = refl; same_ring_size = refl };
  }
  | yes idle ↦ idle-Accepted c q p s f on room idle
]
