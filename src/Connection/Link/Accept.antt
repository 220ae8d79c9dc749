-- ===== src/Connection/Link/Accept.antt =====
-- A send keeps the invariant of a link, whether `SendMsgTCP` refuses the packet, queues it or starts
-- to send it.
use socket_server_lib.Prelude.{
  suc, ◌<◌, ◌≡◌, ◌≢◌, refl, sym, ap, ◌∙◌, true, List, [], ◌∷◌, ◌++◌, append_assoc, append-nil,
  arith, length, Bool-cases, inl, inr, dec_lt, ℕ_discrete,
}
use socket_server_lib.PacketData.{PacketData, bytes}
use socket_server_lib.SendBuffer.{max_tcp_segment_size}
use socket_server_lib.SendBuffer.Queue.{
  pending, AllValid-append, AllSized-append, pending-append, joined,
}
use socket_server_lib.SendBuffer.Push.{push-back}
use socket_server_lib.Connection.Send.{
  queued, send_msg_tcp-off, send_msg_tcp-full, send_msg_tcp-busy, send_msg_tcp-idle,
}
use socket_server_lib.Connection.{Connection}
use socket_server_lib.Connection.Link.{Link, send, step, PacketFits}
use socket_server_lib.Connection.Link.Invariant.{
  Sendable, send_tcp_io-Sending, Inv, Sending-Inv, Stepped,
}

-- The queue with one packet more, while there is room.
pub queued-Sendable :
    {c : Connection} {q : List PacketData} (p : PacketData)
    → Sendable c q
    → PacketFits p
    → suc (length q) < c.send_buffer.capacity
    → Sendable (queued c p) (q ++ (p ∷ []))
queued-Sendable {c} {q} p s f room = record {
  ring = (push-back p s.ring room).1;
  valid = AllValid-append q (p ∷ []) s.valid (f.0, tt);
  sized = AllSized-append max_tcp_segment_size q (p ∷ []) s.sized (f.1, f.2, tt);
}

-- `l` after a packet is taken while a send is under way, and while none is.
abbrev taken : Link → PacketData → Link
taken l p = record l { conn = queued l.conn p; accepted = l.accepted ++ bytes p }

send_busy-Inv :
    {l : Link} {q : List PacketData} (p : PacketData)
    → Inv l q
    → PacketFits p
    → suc (length q) < l.conn.send_buffer.capacity
    → l.conn.in_flight ≢ 0
    → Inv (taken l p) (q ++ (p ∷ []))
send_busy-Inv {l} {q} p i f room under_way = record {
  sendable = queued-Sendable p i.sendable f room;
  in_order =
      ap (◌++◌ l.wire) (pending-append q (p ∷ []) ∙ ap (◌++◌ (pending q)) (append-nil (bytes p)))
      ∙ sym (append_assoc l.wire (pending q) (bytes p))
      ∙ ap (λ b. b ++ bytes p) i.in_order;
  front = (
    i.front.0 ++ pending (p ∷ []),
    sym (append_assoc l.outstanding i.front.0 (pending (p ∷ [])))
        ∙ ap (λ b. b ++ pending (p ∷ [])) i.front.1
        ∙ sym (pending-append q (p ∷ [])),
  );
  idle = λ e. absurd (under_way e);
  busy = i.busy;
}

send_idle-Inv :
    {l : Link} {q : List PacketData} (p : PacketData)
    → Inv l q
    → PacketFits p
    → suc (length q) < l.conn.send_buffer.capacity
    → l.conn.connected ≡ true
    → l.conn.in_flight ≡ 0
    → length q ≡ 0
    → Stepped l (send p true)
unfolding step
send_idle-Inv {l} {q = []} p i f room on idle empty =
    let s = queued-Sendable p i.sendable f room in
    let (c', bufs, e, w) = send_tcp_io-Sending (queued l.conn p) true p [] s in
    (
      record l { conn = c'; outstanding = joined bufs; accepted = l.accepted ++ bytes p },
      p ∷ [],
      rw (send_msg_tcp-idle l.conn p true i.sendable.ring on room idle e),
      Sending-Inv s w refl refl (
          ap (◌++◌ l.wire) (append-nil (bytes p))
          ∙ ap (λ b. b ++ bytes p) (sym (append-nil l.wire) ∙ i.in_order)),
    )
send_idle-Inv {q = x ∷ q} p i f room on idle empty = absurd (omega (arith, empty))

pub send-Inv :
    {l : Link} {q : List PacketData} (p : PacketData)
    → Inv l q
    → PacketFits p
    → Stepped l (send p true)
unfolding step
send-Inv {l} {q} p i f = elim (Bool-cases l.conn.connected) [
  | inr off ↦ (l, q, rw (send_msg_tcp-off l.conn p true off), i)
  | inl on ↦ elim (dec_lt (suc (length q)) l.conn.send_buffer.capacity) [
    | no full ↦ (
      l,
      q,
      rw (
          send_msg_tcp-full l.conn p true i.sendable.ring on
            (omega (arith, full, i.sendable.ring.room))),
      i,
    )
    | yes room ↦ elim (ℕ_discrete l.conn.in_flight 0) [
      | no busy ↦ (
        taken l p,
        q ++ (p ∷ []),
        rw (send_msg_tcp-busy l.conn p true i.sendable.ring on room busy),
        send_busy-Inv p i f room busy,
      )
      | yes idle ↦ send_idle-Inv p i f room on idle (ap length (i.idle idle))
    ]
  ]
]
