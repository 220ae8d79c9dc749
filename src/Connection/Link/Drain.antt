-- ===== src/Connection/Link/Drain.antt =====
-- Everything accepted goes out, as long as every WSASend starts and the system goes on to complete the sends under way.
use socket_server_lib.Prelude.{
  ℕ, zero, suc, ◌≤◌, ◌≡◌, refl, sym, ap, ◌∙◌, some, true, List, [], ◌++◌, append-nil, arith, length,
  length-append, replicate, nil_of_length,
}
use socket_server_lib.PacketData.{PacketData}
use socket_server_lib.SendBuffer.Queue.{pending}
use socket_server_lib.SendBuffer.Ring.{Holds}
use socket_server_lib.Connection.{Connection}
use socket_server_lib.Connection.Link.{Link, Event, complete, run, AllFit, started}
use socket_server_lib.Connection.Link.Invariant.{Inv}
use socket_server_lib.Connection.Link.Complete.{complete-Progress}
use socket_server_lib.Connection.Link.Order.{run-Inv, started-Inv}

drain :
    {l : Link} {q : List PacketData} (k extra : ℕ)
    → Inv l q
    → length (pending q) ≤ k
    → (m : Link) × (run l (replicate k (complete extra true)) ≡ some m) × (m.wire ≡ l.accepted)
unfolding run
drain {l} {q} zero extra i h =
    (l, refl, sym (append-nil l.wire) ∙ ap (◌++◌ l.wire) (sym none_wait) ∙ i.in_order)
  where
    none_wait : pending q ≡ []
    none_wait = nil_of_length (pending q) (omega (arith, h))
drain {l} {q} (suc k) extra i h =
    let (w, p) = complete-Progress extra i in
    let (m, e, sent) = drain {l = w.0} {q = w.1} k extra w.3 (omega (arith, h, p.fewer)) in
    (m, rw (w.2, e), sent ∙ p.same_accepted)

-- As long as every WSASend starts: after any sequence of sends of packets of 1 to MAX_TCP_SEGMENT_SIZE
-- bytes and of completions, from an empty ring with no send under way, all that was accepted has gone
-- out, in order, when the system has completed at least one byte of the send under way as many times
-- as there are accepted bytes.
pub run-drains :
    (c : Connection) (es : List Event) (extra : ℕ)
    → Holds c.send_buffer []
    → c.in_flight ≡ 0
    → AllFit es
    → (m : Link) × (m' : Link) × (run (started c) es ≡ some m)
      × (run m (replicate (length m.accepted) (complete extra true)) ≡ some m')
      × (m'.wire ≡ m.accepted)
run-drains c es extra h idle f =
    let (m, q, e, i) = run-Inv es (started-Inv c h idle) f in
    let (m', e', sent) =
      drain (length m.accepted) extra i
        (omega (arith, ap (length {A = ℕ}) i.in_order, length-append m.wire (pending q))) in
    (m, m', e, e', sent)
