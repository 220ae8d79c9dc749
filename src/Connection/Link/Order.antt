-- ===== src/Connection/Link/Order.antt =====
-- As long as every WSASend starts, the client receives the bytes of the packets in the order in which they were accepted.
use socket_server_lib.Prelude.{
  ◌<◌, ◌⊎◌, inl, inr, ℕ_discrete, ℕ, true, false, ◌≡◌, refl, sym, ap, ◌∙◌, some, List, [], ◌∷◌,
  ◌++◌, append-nil, arith, length,
}
use socket_server_lib.PacketData.{PacketData}
use socket_server_lib.SendBuffer.Queue.{pending}
use socket_server_lib.SendBuffer.Ring.{Holds}
use socket_server_lib.Connection.{Connection}
use socket_server_lib.Connection.Link.{Link, Event, send, complete, run, Fits, AllFit, started}
use socket_server_lib.Connection.Link.Invariant.{Inv, Stepped}
use socket_server_lib.Connection.Link.Accept.{send-Inv}
use socket_server_lib.Connection.Link.Complete.{complete-Inv, quiet}

step-Inv : {l : Link} {q : List PacketData} (e : Event) → Inv l q → Fits e → Stepped l e
step-Inv (send p true) i f = send-Inv p i f.1
step-Inv (send p false) i f = absurd (ground (arith, f.0))
step-Inv (complete extra true) i f = complete-Inv extra i
step-Inv (complete extra false) i f = absurd (ground (arith, f))

pub run-Inv :
    {l : Link} {q : List PacketData} (es : List Event)
    → Inv l q
    → AllFit es
    → (m : Link) × (r : List PacketData) × (run l es ≡ some m) × Inv m r
unfolding run
run-Inv {l} {q} [] i f = (l, q, refl, i)
run-Inv {l} {q} (e ∷ es) i f =
    let w = step-Inv {l = l} {q = q} e i f.0 in
    let w' = run-Inv {l = w.0} {q = w.1} es w.3 f.1 in (w'.0, w'.1, rw (w.2, w'.2), w'.3)

pub started-Inv : (c : Connection) → Holds c.send_buffer [] → c.in_flight ≡ 0 → Inv (started c) []
started-Inv c h idle = record {
  sendable = record { ring = h; valid = tt; sized = tt };
  in_order = refl;
  front = ([], refl);
  idle = λ e. refl;
  busy = λ z. absurd (omega (arith, z, idle));
}

sent_or_busy :
    {m : Link} {q : List PacketData} → Inv m q → (m.wire ≡ m.accepted) ⊎ (0 < length m.outstanding)
sent_or_busy {m} {q} i = elim (ℕ_discrete (length m.outstanding) 0) [
  | no busy ↦ inr (omega (arith, busy))
  | yes none_left ↦ inl (
      sym (append-nil m.wire)
      ∙ ap (λ r. m.wire ++ pending r) (sym (quiet i none_left))
      ∙ i.in_order)
]

-- As long as every WSASend starts: from an empty ring with no send under way, any sequence of sends of packets of 1 to
-- MAX_TCP_SEGMENT_SIZE bytes and of partial or full completions ends without a fault, and whatever
-- was refused, what went out is the front of the accepted bytes, in order. A send is under way for
-- as long as accepted bytes wait: when none is, everything accepted has gone out.
pub run-in_order :
    (c : Connection) (es : List Event)
    → Holds c.send_buffer []
    → c.in_flight ≡ 0
    → AllFit es
    → (m : Link) × (waiting : List ℕ) × (run (started c) es ≡ some m)
      × (m.wire ++ waiting ≡ m.accepted)
      × ((m.wire ≡ m.accepted) ⊎ (0 < length m.outstanding))
run-in_order c es h idle f =
    let (m, q, e, i) = run-Inv es (started-Inv c h idle) f in
    (m, pending q, e, i.in_order, sent_or_busy i)
