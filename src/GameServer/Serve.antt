-- ===== src/GameServer/Serve.antt =====
-- A call of `HandleReq` on echo requests that wait in the receive buffer.
use socket_server_lib.Prelude.{
  ℕ, zero, suc, ◌+◌, ◌^◌, ◌≤◌, ◌<◌, ◌≡◌, refl, sym, ap, ap₂, ◌∙◌, subst, true, Option, none, some,
  List, [], ◌∷◌, ◌++◌, map, arith, length, append_assoc, append-nil, length-append, lt→ltb,
}
use socket_server_lib.PacketData.{PacketData, req_failed, bytes, code_value, req_success}
use socket_server_lib.PacketData.Wire.{read_info}
use socket_server_lib.SlideBuffer.Fifo.{length-contents}
use socket_server_lib.Connection.{
  Connection, JobProcess, parsing, get_job_process, get_req_message, set_job_process,
}
use socket_server_lib.Connection.Framing.{front_message, get_req_message-front_message}
use socket_server_lib.Core.{get_connection, update}
use socket_server_lib.Job.Answer.{request, padded}
use socket_server_lib.GameServer.{
  Server, Answers, Rounds, parse_req, parse_case, set_process, get_process, handle_loop, handle_req,
  received_size,
}
use socket_server_lib.GameServer.Round.{
  Serving, Grants, Round, Round-of_Serving, get_connection-update_self,
}

-- Echo requests, each a number and a payload, as they come over the wire.
unfoldable pub stream : List (ℕ × List ℕ) → List ℕ
stream [] = []
stream ((number, payload) ∷ reqs) = request 0 number payload ++ stream reqs

abbrev pub AllSmall : List (ℕ × List ℕ) → Type 0
AllSmall [] = Unit {0}
AllSmall (r ∷ reqs) = (r.0 < 2 ^ 32) × (length r.1 ≤ 80) × AllSmall reqs

-- What a client reads that has sent them.
abbrev pub echo_of : ℕ × List ℕ → Option (ℕ × ℕ × ℕ × List ℕ)
echo_of r = some (96, code_value req_success, r.0, padded r.1)

abbrev pub read_all : List PacketData → List (Option (ℕ × ℕ × ℕ × List ℕ))
read_all = map (λ p. read_info (bytes p))

stream_long : (reqs : List (ℕ × List ℕ)) → length reqs ≤ length (stream reqs)
unfolding stream
stream_long [] = omega arith
stream_long ((number, payload) ∷ reqs) = omega (
  arith,
  stream_long reqs,
  length-append {0} payload (stream reqs),
  length-append (request 0 number payload) (stream reqs),
)

-- Without a whole message in front, the call ends.
parse_case-ends :
    {s : Server} {i cap slots : ℕ} {part : List ℕ} {q : List PacketData} (a : Answers)
    (again : Rounds)
    → Serving s i cap slots part q
    → front_message part ≡ none
    → parse_case s i a again ≡ some (req_failed, set_process s i parsing)
unfolding parse_case parse_req
parse_case-ends {s} {i} {cap} {slots} {part} {q} a again v e =
    rw (parse_req, lt→ltb i (length s.jobs) v.has_slot, v.found, empty)
  where
    empty : get_req_message v.conn ≡ some none
    empty =
        get_req_message-front_message v.conn v.reads.valid
        ∙ ap (λ b. some (front_message b)) v.reads.held
        ∙ ap some e

pub set_process-found :
    (s : Server) (i : ℕ) (e : JobProcess) {c : Connection}
    → get_connection s.core i ≡ some c
    → set_process s i e ≡ record s { core = update s.core i (set_job_process c e) }
unfolding set_process
set_process-found s i e f = rw (set_process, f)

-- Afterwards the client has the phase, and is otherwise the same.
pub set_process-found_self :
    (s : Server) (i : ℕ) (e : JobProcess) {c : Connection}
    → get_connection s.core i ≡ some c
    → (get_connection (set_process s i e).core i ≡ some (set_job_process c e))
      × (get_process (set_process s i e) i ≡ e)
unfolding set_job_process get_process get_job_process
set_process-found_self s i e {c} f = (found, rw (get_process, found))
  where
    found : get_connection (set_process s i e).core i ≡ some (set_job_process c e)
    found =
        ap (λ t. get_connection t.core i) (set_process-found s i e f)
        ∙ get_connection-update_self s.core i (set_job_process c e) f

set_process-Serving :
    {s : Server} {i cap slots : ℕ} {part : List ℕ} {q : List PacketData}
    → Serving s i cap slots part q
    → Serving (set_process s i parsing) i cap slots part q
unfolding set_job_process
set_process-Serving {s} {i} {cap} {slots} {part} {q} v =
    subst (λ t. Serving t i cap slots part q) (sym (set_process-found s i parsing v.found))
      (record {
        conn = set_job_process v.conn parsing;
        found = get_connection-update_self s.core i (set_job_process v.conn parsing) v.found;
        reads = record { valid = v.reads.valid; sized = v.reads.sized; held = v.reads.held };
        sendable = record {
          ring = v.sendable.ring;
          valid = v.sendable.valid;
          sized = v.sendable.sized;
        };
        on = v.on;
        ring_size = v.ring_size;
        has_slot = v.has_slot;
      })

pub handle_loop-echoes :
    (reqs : List (ℕ × List ℕ)) (fuel : ℕ) {s : Server} {i cap slots : ℕ} {part : List ℕ}
    {q : List PacketData} (answers : ℕ → Answers)
    → Serving s i cap slots (stream reqs ++ part) q
    → front_message part ≡ none
    → ((n : ℕ) → n < length reqs → Grants (answers n))
    → AllSmall reqs
    → length q + length reqs < slots
    → length reqs < fuel
    → (t : Server) × (ps : List PacketData) × (handle_loop fuel answers s i parsing
        ≡ some (req_failed, t))
      × Serving t i cap slots part (q ++ ps)
      × (read_all ps ≡ map echo_of reqs)
unfolding handle_loop stream
handle_loop-echoes [] zero answers v e g small room h = absurd (omega arith)
handle_loop-echoes (r ∷ reqs) zero answers v e g small room h = absurd (omega arith)
handle_loop-echoes [] (suc fuel) {s} {i} {cap} {slots} {part} {q} answers v e g small room h = (
  set_process s i parsing,
  [],
  parse_case-ends (answers 0) _ v e,
  subst (Serving (set_process s i parsing) i cap slots part) (sym (append-nil q))
      (set_process-Serving v),
  refl,
)
handle_loop-echoes ((number, payload) ∷ reqs) (suc fuel) {s} {i} {cap} {slots} {part} {q} answers v
      e g small room h =
    let w : Round s i cap slots (answers 0) number payload (stream reqs ++ part) q =
      Round-of_Serving
        (subst (λ b. Serving s i cap slots b q)
          (append_assoc (request 0 number payload) (stream reqs) part) v)
        (g 0 (omega arith)) small.1 small.0 (omega arith) in
    let (t, ps, ends, serving, reads) =
      handle_loop-echoes reqs fuel {s = w.after} (λ n. answers (suc n)) w.serving e
        (λ n k. g (suc n) (omega arith)) small.2 (omega (arith, length-append q (w.answer ∷ [])))
        (omega arith) in
    (
      t,
      w.answer ∷ ps,
      w.goes_on _ ∙ ends,
      subst (Serving t i cap slots part) (append_assoc q (w.answer ∷ []) ps) serving,
      ap₂ ◌∷◌ w.echoed reads,
    )

-- The rounds of a call are enough.
pub enough_rounds :
    (reqs : List (ℕ × List ℕ)) (part : List ℕ) {s : Server} {i cap slots : ℕ} {q : List PacketData}
    → Serving s i cap slots (stream reqs ++ part) q
    → length reqs ≤ received_size s i
enough_rounds reqs part {s} {i} {cap} {slots} {q} v = omega (
  arith,
  size,
  length-contents v.reads.valid,
  ap (length {A = ℕ}) v.reads.held,
  stream_long reqs,
  length-append (stream reqs) part,
)
  where
    size : received_size s i ≡ v.conn.recv_buffer.size
    size = rw (received_size, v.found)

-- When the client is connected, in the parsing phase, and its receive buffer holds echo requests of
-- at most 80 bytes of payload each, with numbers below 2 ^ 32, and behind them bytes without a whole
-- message in front, its ring has room for the answers, and the world grants each of these rounds a
-- block, a valid packet of at least PACKET_SIZE bytes and a send that starts, then a call that gets the
-- lock ends with REQ_FAILED, without a fault and within its rounds. It leaves what comes behind the
-- requests in the buffer, and in the ring the packets that waited, followed by one answer per
-- request, in order: the client reads them as successes with the requests' numbers and payloads, filled
-- up with zeros.
pub handle_req-echoes :
    (reqs : List (ℕ × List ℕ)) {s : Server} {i cap slots : ℕ} {part : List ℕ} {q : List PacketData}
    (answers : ℕ → Answers)
    → Serving s i cap slots (stream reqs ++ part) q
    → i < s.locks
    → get_process s i ≡ parsing
    → front_message part ≡ none
    → ((n : ℕ) → n < length reqs → Grants (answers n))
    → AllSmall reqs
    → length q + length reqs < slots
    → (t : Server) × (ps : List PacketData) × (handle_req s i true answers ≡ some (req_failed, t))
      × Serving t i cap slots part (q ++ ps)
      × (read_all ps ≡ map echo_of reqs)
unfolding handle_req
handle_req-echoes reqs {s} {i} {cap} {slots} {part} {q} answers v owned phase e g small room =
    let (t, ps, ends, serving, reads) =
      handle_loop-echoes reqs (suc (suc (received_size s i))) answers v e g small room
        (omega (arith, enough_rounds reqs part v)) in
    (t, ps, rw (lt→ltb i s.locks owned, phase, ends), serving, reads)
