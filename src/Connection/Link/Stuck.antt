-- ===== src/Connection/Link/Stuck.antt =====
-- A WSASend that fails in SendMsgTCP leaves the mark of a send under way, and no completion comes.
use socket_server_lib.Prelude.{
  ℕ, suc, ◌<◌, ◌≡◌, ◌≢◌, refl, sym, ap, ◌∙◌, subst, true, false, some, List, [], ◌∷◌, ◌++◌, arith,
  length, Bool-cases, inl, inr, dec_lt, append-nil, append_assoc, is_zero,
}
use socket_server_lib.PacketData.{PacketData, bytes}
use socket_server_lib.SendBuffer.Ring.{Holds}
use socket_server_lib.SendBuffer.Push.{push-back}
use socket_server_lib.Connection.Send.{
  queued, send_msg_tcp-off, send_msg_tcp-full, send_msg_tcp-busy, send_msg_tcp-idle,
}
use socket_server_lib.Connection.{Connection}
use socket_server_lib.Connection.Link.{Link, Event, send, complete, step, run, PacketFits, started}
use socket_server_lib.Connection.Link.Invariant.{Sendable, send_tcp_io-Sending}
use socket_server_lib.Connection.Link.Accept.{queued-Sendable}

-- The mark says that a send is under way, and none is; `q` waits.
record Stuck (l : Link) (q : List PacketData) : Type 0 where
  pub ring : Holds l.conn.send_buffer q
  pub marked : l.conn.in_flight ≢ 0
  pub quiet : l.outstanding ≡ []

-- One more step: nothing goes out, and what waits waits on.
abbrev StaysStuck : Link → List PacketData → Event → Type 0
StaysStuck l q e =
    (m : Link) × (more : List PacketData) × (step l e ≡ some m)
    × Stuck m (q ++ more)
    × (m.wire ≡ l.wire)

kept-Stuck : {l : Link} {q : List PacketData} → Stuck l q → Stuck l (q ++ [])
kept-Stuck {l} {q} s = record {
  ring = subst (Holds l.conn.send_buffer) (sym (append-nil q)) s.ring;
  marked = s.marked;
  quiet = s.quiet;
}

step-Stuck : (l : Link) {q : List PacketData} (e : Event) → Stuck l q → StaysStuck l q e
unfolding step
step-Stuck l {q} (send p begun) s = elim (Bool-cases l.conn.connected) [
  | inr off ↦ (l, [], rw (send_msg_tcp-off l.conn p begun off), kept-Stuck s, refl)
  | inl on ↦ elim (dec_lt (suc (length q)) l.conn.send_buffer.capacity) [
    | no full ↦ (
      l,
      [],
      rw (send_msg_tcp-full l.conn p begun s.ring on (omega (arith, full, s.ring.room))),
      kept-Stuck s,
      refl,
    )
    | yes room ↦ (
      record l { conn = queued l.conn p; accepted = l.accepted ++ bytes p },
      p ∷ [],
      rw (send_msg_tcp-busy l.conn p begun s.ring on room s.marked),
      record { ring = (push-back p s.ring room).1; marked = s.marked; quiet = s.quiet },
      refl,
    )
  ]
]
step-Stuck l {q} (complete extra begun) s =
    (l, [], rw (is_zero (length l.outstanding) (ap (length {A = ℕ}) s.quiet)), kept-Stuck s, refl)

run-Stuck :
    (l : Link) {q : List PacketData} (es : List Event)
    → Stuck l q
    → (m : Link) × (more : List PacketData) × (run l es ≡ some m)
      × Stuck m (q ++ more)
      × (m.wire ≡ l.wire)
unfolding run
run-Stuck l {q} [] s = (l, [], refl, kept-Stuck s, refl)
run-Stuck l {q} (e ∷ es) s =
    let (m, more, e', s', same) = step-Stuck l e s in
    let (m', later, f, s'', same') = run-Stuck m {q = q ++ more} es s' in
    (m', more ++ later, rw (e', f), subst (Stuck m') (append_assoc q more later) s'', same' ∙ same)

-- On a connected client with an empty ring and no send under way, SendMsgTCP takes a packet of 1 to
-- MAX_TCP_SEGMENT_SIZE bytes and its WSASend fails. Then whatever is sent later, and whether or not the
-- WSASend of a later call would start: the packet stays the first of the ring, no send is under way, and
-- no byte goes out.
pub send_fails-stuck :
    (c : Connection) (p : PacketData) (es : List Event)
    → Holds c.send_buffer []
    → c.in_flight ≡ 0
    → 1 < c.send_buffer.capacity
    → c.connected ≡ true
    → PacketFits p
    → (m : Link) × (m' : Link) × (more : List PacketData) × (step (started c) (send p false)
        ≡ some m)
      × (run m es ≡ some m')
      × Holds m'.conn.send_buffer (p ∷ more)
      × (m'.outstanding ≡ [])
      × (m'.wire ≡ [])
unfolding step
send_fails-stuck c p es ring idle room on f =
    let waiting : Sendable (queued c p) (p ∷ []) =
      queued-Sendable p (record { ring = ring; valid = tt; sized = tt }) f room in
    let (d, bufs, e, w) = send_tcp_io-Sending (queued c p) false p [] waiting in
    let first : Link = record (started c) { conn = d } in
    let (m', more, e', s, same) = run-Stuck first {q = p ∷ []} es (record {
      ring = subst (λ b. Holds b (p ∷ [])) (sym w.same_ring) waiting.ring;
      marked = λ z. omega (arith, w.marked, z);
      quiet = refl;
    }) in
    (
      first,
      m',
      more,
      rw (send_msg_tcp-idle c p false ring on room idle e),
      e',
      s.ring,
      s.quiet,
      same,
    )
