-- ===== src/GameServer/Stuck.antt =====
-- Requests for which no job can be made, and requests that are taken up again.
use socket_server_lib.Prelude.{
  ℕ, ◌<◌, ◌≡◌, refl, ap, ◌∙◌, Bool, true, Option, none, some, List, [], ◌∷◌, replicate, length,
  arith, lt→ltb, ◌>>=◌,
}
use socket_server_lib.PacketData.{InfoCode, req_failed}
use socket_server_lib.SlideBuffer.{SlideBuffer}
use socket_server_lib.GameServer.Serve.{set_process-found, set_process-found_self}
use socket_server_lib.Connection.{
  set_job_process-recv_buffer, get_req_message-set_job_process, Connection, parsing,
  get_req_message, set_job_process,
}
use socket_server_lib.Core.{get_connection}
use socket_server_lib.Job.{create_job}
use socket_server_lib.GameServer.{
  Server, Answers, parse_req, parse_case, set_process, get_process, handle_loop, handle_req,
}

-- Calls that get the lock, one after the other: what they answer.
pub calls : List (ℕ → Answers) → Server → ℕ → Option (List InfoCode × Server)
calls [] s i = some ([], s)
calls (answers ∷ later) s i =
    handle_req s i true answers >>= λ r. calls later r.1 i >>= λ rs. some (r.0 ∷ rs.0, rs.1)

-- The client `i`, between two calls, has `sv` in front of its receive buffer `b`.
pub record Waiting (s : Server) (i : ℕ) (b : SlideBuffer) (sv : List ℕ) : Type 0 where
  pub conn : Connection
  pub has_slot : i < length s.jobs
  pub has_lock : i < s.locks
  pub phase : get_process s i ≡ parsing
  pub found : get_connection s.core i ≡ some conn
  pub buffer : conn.recv_buffer ≡ b
  pub front : get_req_message conn ≡ some (some sv)

module _ {s : Server} {i : ℕ} {b : SlideBuffer} {sv : List ℕ} (w : Waiting s i b sv)
    (refused : (granted : Bool) → create_job i sv granted ≡ some none) where
  handle_req-refused :
      (answers : ℕ → Answers)
      → handle_req s i true answers ≡ some (req_failed, set_process s i parsing)
  unfolding handle_req handle_loop parse_case parse_req
  handle_req-refused answers = rw (
    lt→ltb i s.locks w.has_lock,
    w.phase,
    parse_req,
    lt→ltb i (length s.jobs) w.has_slot,
    w.found,
    w.front,
    refused (answers 0).block,
  )

set_process-Waiting :
    {s : Server} {i : ℕ} {b : SlideBuffer} {sv : List ℕ}
    → Waiting s i b sv
    → Waiting (set_process s i parsing) i b sv
set_process-Waiting {s} {i} {b} {sv} w =
    let (found, phase) = set_process-found_self s i parsing w.found in
    let same = set_process-found s i parsing w.found in
    record {
      conn = set_job_process w.conn parsing;
      has_slot = omega (arith, w.has_slot, ap (λ t. length t.jobs) same);
      has_lock = omega (arith, w.has_lock, ap (λ t. t.locks) same);
      phase = phase;
      found = found;
      buffer = set_job_process-recv_buffer w.conn parsing ∙ w.buffer;
      front = get_req_message-set_job_process w.conn parsing ∙ w.front;
    }

-- When the message in front of a client's receive buffer is one for which CreateJob gives nullptr,
-- whether it gets a block or not, and the client is in the parsing phase, then any number of calls that
-- get the lock all answer REQ_FAILED, and afterwards the receive buffer is as it was, with that message
-- still in front.
pub calls-stuck :
    (later : List (ℕ → Answers)) {s : Server} {i : ℕ} {b : SlideBuffer} {sv : List ℕ}
    → Waiting s i b sv
    → ((granted : Bool) → create_job i sv granted ≡ some none)
    → (t : Server) × (calls later s i ≡ some (replicate (length later) req_failed, t))
      × Waiting t i b sv
unfolding calls
calls-stuck [] {s} w refused = (s, refl, w)
calls-stuck (answers ∷ later) {s} {i} w refused =
    let (t, e, v) = calls-stuck later (set_process-Waiting w) refused in
    (t, rw (handle_req-refused w refused answers, e), v)
