-- ===== src/GameServer/Resume.antt =====
-- An answer that could not be sent, and the next call, which sends it first.
use socket_server_lib.Prelude.{
  ℕ, suc, ◌+◌, ◌≤◌, ◌<◌, ◌≡◌, ap, ◌∙◌, subst, true, false, none, some, List, [], ◌∷◌, ◌++◌, map,
  arith, length, lt→ltb, append_assoc, length-append,
}
use socket_server_lib.PacketData.{PacketData, req_failed, not_finished}
use socket_server_lib.SendBuffer.Ring.{Holds}
use socket_server_lib.Connection.{Connection, send, set_job_process}
use socket_server_lib.Connection.Framing.{front_message}
use socket_server_lib.Connection.Link.{PacketFits}
use socket_server_lib.Connection.Send.{send_msg_tcp-full}
use socket_server_lib.Core.{Core, get_connection, update}
use socket_server_lib.Core.Udp
use socket_server_lib.Job
use socket_server_lib.Job.{Job, tcp, protocol}
use socket_server_lib.GameServer.Send.{Accepted, send_msg_tcp-Accepted}
use socket_server_lib.GameServer.Round.{
  Serving, Grants, get_connection-update_self, send_msg_func-tcp, sent-Serving,
}
use socket_server_lib.GameServer.Serve.{
  stream, enough_rounds, AllSmall, echo_of, read_all, handle_loop-echoes, set_process-found,
  set_process-found_self,
}
use socket_server_lib.GameServer.{
  Server, Answers, job_at, put_job, send_msg_func, send_msg_sent, send_res, send_case, set_process,
  get_process, handle_loop, handle_req, received_size,
}

-- The job of client `i` waits in the sending phase with the answer `p` to a TCP request.
pub record Unsent (s : Server) (i : ℕ) (p : PacketData) : Type 0 where
  pub job : Job
  pub stored : job_at s.jobs i ≡ some job
  pub client : job.client ≡ i
  pub answer : job.packet ≡ some p
  pub by_tcp : protocol job.kind ≡ tcp
  pub phase : get_process s i ≡ send
  pub has_lock : i < s.locks

module _ {s : Server} {i : ℕ} {p : PacketData} (a : Answers) (u : Unsent s i p) {core : Core} where
  send_res-sent :
      send_msg_func s.core i (some p) tcp a ≡ some (true, core)
      → send_res s i a ≡ some (true, record (put_job s i none) { core = core })
  unfolding send_res Job.send_res
  send_res-sent e = rw (send_res, u.stored, u.client, u.answer, u.by_tcp, e)

  send_res-unsent :
      send_msg_func s.core i (some p) tcp a ≡ some (false, core)
      → send_res s i a ≡ some (false, record s { core = core })
  unfolding send_res Job.send_res
  send_res-unsent e = rw (send_res, u.stored, u.client, u.answer, u.by_tcp, e)

send_msg_func-full :
    (core : Core) (i : ℕ) (p : PacketData) (a : Answers) {c : Connection} {q : List PacketData}
    → get_connection core i ≡ some c
    → Holds c.send_buffer q
    → c.connected ≡ true
    → suc (length q) ≡ c.send_buffer.capacity
    → send_msg_func core i (some p) tcp a ≡ some (false, update core i c)
unfolding send_msg_func send_msg_sent Udp.send_msg_tcp
send_msg_func-full core i p a {c} {q} e h on full =
    rw (Udp.send_msg_tcp, e, send_msg_tcp-full c p a.started h on full)

-- When a job waits in the sending phase with an answer for a connected client whose ring is full, a
-- call that gets the lock answers NOT_FINISHED. The job stays with its answer, the phase stays, and the
-- client's connection is otherwise as it was.
pub handle_req-Unsent :
    {s : Server} {i : ℕ} {p : PacketData} {c : Connection} {q : List PacketData}
    (answers : ℕ → Answers)
    → Unsent s i p
    → get_connection s.core i ≡ some c
    → Holds c.send_buffer q
    → c.connected ≡ true
    → suc (length q) ≡ c.send_buffer.capacity
    → (t : Server) × (handle_req s i true answers ≡ some (not_finished, t))
      × Unsent t i p
      × (get_connection t.core i ≡ some (set_job_process c send))
unfolding handle_req handle_loop send_case
handle_req-Unsent {s} {i} {p} {c} {q} answers u e h on full = (
  set_process s1 i send,
  rw (
    lt→ltb i s.locks u.has_lock,
    u.phase,
    send_res-unsent (answers 0) u (send_msg_func-full s.core i p (answers 0) e h on full),
  ),
  record {
    job = u.job;
    stored = ap (λ t. job_at t.jobs i) same ∙ u.stored;
    client = u.client;
    answer = u.answer;
    by_tcp = u.by_tcp;
    phase = kept.1;
    has_lock = omega (arith, u.has_lock, ap (λ t. t.locks) same);
  },
  kept.0,
)
  where
    s1 : Server
    s1 = record s { core = update s.core i c }

    found : get_connection s1.core i ≡ some c
    found = get_connection-update_self s.core i c e

    same : set_process s1 i send ≡ record s1 { core = update s1.core i (set_job_process c send) }
    same = set_process-found s1 i send found

    kept :
        (get_connection (set_process s1 i send).core i ≡ some (set_job_process c send))
        × (get_process (set_process s1 i send) i ≡ send)
    kept = set_process-found_self s1 i send found

-- When a job waits in the sending phase with a valid answer of 1 to MAX_TCP_SEGMENT_SIZE bytes for a
-- connected client, and the rest is as for a call on echo requests, with room in the ring for that
-- answer too, then the next call that gets the lock sends it first, once, and goes on with the requests:
-- the ring holds what waited, that answer, and the answers to the requests, in this order.
pub handle_req-resumes :
    (reqs : List (ℕ × List ℕ)) {s : Server} {i cap slots : ℕ} {part : List ℕ} {q : List PacketData}
    {p : PacketData} (answers : ℕ → Answers)
    → Serving s i cap slots (stream reqs ++ part) q
    → Unsent s i p
    → PacketFits p
    → front_message part ≡ none
    → ((n : ℕ) → n ≤ length reqs → Grants (answers n))
    → AllSmall reqs
    → suc (length q + length reqs) < slots
    → (t : Server) × (ps : List PacketData) × (handle_req s i true answers ≡ some (req_failed, t))
      × Serving t i cap slots part (q ++ (p ∷ ps))
      × (read_all ps ≡ map echo_of reqs)
unfolding handle_req handle_loop send_case
handle_req-resumes reqs {s} {i} {cap} {slots} {part} {q} {p} answers v u fits e g small room =
    let sent : Accepted v.conn q p =
      send_msg_tcp-Accepted p v.sendable fits v.on (omega (arith, room, v.ring_size)) in
    let s1 : Server = record (put_job s i none) { core = update s.core i sent.after } in
    let moved : send_res s i (answers 0) ≡ some (true, s1) = send_res-sent (answers 0) u (
      send_msg_func-tcp s.core i (answers 0) p v.found (g 0 (omega arith)).started sent.answered) in
    let (t, ps, ends, serving, reads) =
      handle_loop-echoes reqs (suc (received_size s i)) {s = s1} {q = q ++ (p ∷ [])}
        (λ n. answers (suc n)) (sent-Serving v sent) e (λ n k. g (suc n) (omega arith)) small
        (omega (arith, room, length-append q (p ∷ [])))
        (omega (arith, enough_rounds reqs part v)) in
    (
      t,
      ps,
      rw (lt→ltb i s.locks u.has_lock, u.phase, moved, ends),
      subst (Serving t i cap slots part) (append_assoc q (p ∷ []) ps) serving,
      reads,
    )
