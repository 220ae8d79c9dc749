-- ===== src/GameServer/Round.antt =====
-- One round of `HandleReq` on an echo request: it is parsed, executed and answered.
use socket_server_lib.Prelude.{
  ℕ, suc, ◌^◌, ◌≤◌, ◌<◌, ◌≡◌, sym, ap, ◌∙◌, subst, true, Option, none, some, List, [], ◌∷◌, ◌++◌,
  arith, length, set, get_or-set_self, length-set, lt→ltb,
}
use socket_server_lib.PacketData.{PacketData, IsValid, bytes, packet_size, code_value, req_success}
use socket_server_lib.PacketData.Wire.{read_info, get_size_lem}
use socket_server_lib.SlideBuffer
use socket_server_lib.SlideBuffer.{contents}
use socket_server_lib.Connection
use socket_server_lib.Connection.{Connection, get_req_message, pop_recv_buffer}
use socket_server_lib.Connection.Framing.{Framed}
use socket_server_lib.Connection.Link.Invariant.{Sendable}
use socket_server_lib.Connection.Stream.Receive.{
  Reads, get_req_message-whole, pop_recv_buffer-whole,
}
use socket_server_lib.Core.{Core, get_connection, update}
use socket_server_lib.Core.Registry.{get_connection-update}
use socket_server_lib.Core.Udp
use socket_server_lib.Job
use socket_server_lib.Job.{Job, echo_job, tcp, create_job, protocol}
use socket_server_lib.Job.Answer.{request, padded, echoes, echo_answer}
use socket_server_lib.GameServer.Send.{Accepted, send_msg_tcp-Accepted}
use socket_server_lib.GameServer.{
  Server, Answers, Rounds, job_at, put_job, take_req, parse_req, fetch_token, execute_req,
  send_msg_func, send_msg_sent, send_res, send_case, execute_case, parse_case,
}

job_at-set :
    (jobs : List (Option Job)) (i : ℕ) (job : Option Job)
    → i < length jobs
    → job_at (set jobs i job) i ≡ job
unfolding job_at
job_at-set jobs i job h = ground (arith, length-set jobs i job, get_or-set_self jobs i job none h)

pub get_connection-update_self :
    (core : Core) (i : ℕ) {c : Connection} (d : Connection)
    → get_connection core i ≡ some c
    → get_connection (update core i d) i ≡ some d
get_connection-update_self core i d e = get_connection-update core i i d e ∙ ground arith

pub send_msg_func-tcp :
    (core : Core) (i : ℕ) (a : Answers) (q : PacketData) {c d : Connection}
    {bufs : Option (List (List ℕ))}
    → get_connection core i ≡ some c
    → a.started ≡ true
    → Connection.send_msg_tcp c (some q) true ≡ some (true, d, bufs)
    → send_msg_func core i (some q) tcp a ≡ some (true, update core i d)
unfolding send_msg_func send_msg_sent Udp.send_msg_tcp
send_msg_func-tcp core i a q e g k = rw (Udp.send_msg_tcp, e, g, k)

request-Framed :
    (number : ℕ) (payload : List ℕ) → length payload ≤ 80 → Framed (request 0 number payload)
request-Framed number payload h = record {
  header = omega arith;
  small = omega arith;
  says = omega arith;
}

module _ (s : Server) (i : ℕ) (a : Answers) (h : i < length s.jobs) where
  parse_req-whole :
      {c d : Connection} {sv : List ℕ} {job : Job}
      → get_connection s.core i ≡ some c
      → get_req_message c ≡ some (some sv)
      → create_job i sv a.block ≡ some (some job)
      → take_req c sv ≡ some d
      → parse_req s i a ≡ some (true, record (put_job s i (some job)) { core = update s.core i d })
  unfolding parse_req
  parse_req-whole e f g k = rw (parse_req, lt→ltb i (length s.jobs) h, e, f, g, k)

  execute_req-done :
      {param : List ℕ} {number : ℕ} {p q : PacketData}
      → job_at s.jobs i ≡ some (echoes param i number none)
      → a.packet ≡ some p
      → Job.execute (echoes param i number none) (some p) 0
        ≡ some (true, echoes param i number (some q), [])
      → execute_req s i a ≡ some (true, put_job s i (some (echoes param i number (some q))))
  unfolding execute_req fetch_token
  execute_req-done e k f = rw (execute_req, e, k, f)

  send_res-done :
      {param : List ℕ} {number : ℕ} {q : PacketData} {core : Core}
      → job_at s.jobs i ≡ some (echoes param i number (some q))
      → send_msg_func s.core i (some q) tcp a ≡ some (true, core)
      → send_res s i a ≡ some (true, record (put_job s i none) { core = core })
  unfolding send_res protocol Job.send_res
  send_res-done e f = rw (send_res, e, f)

-- The client `i` is connected, its receive buffer of `cap` bytes holds `part`, and its ring of `slots`
-- slots holds `q`.
pub record Serving (s : Server) (i cap slots : ℕ) (part : List ℕ) (q : List PacketData)
    : Type 0 where
  pub conn : Connection
  pub found : get_connection s.core i ≡ some conn
  pub reads : Reads conn cap part
  pub sendable : Sendable conn q
  pub on : conn.connected ≡ true
  pub ring_size : conn.send_buffer.capacity ≡ slots
  pub has_slot : i < length s.jobs

-- The job is done, and its answer is in the ring.
pub sent-Serving :
    {s : Server} {i cap slots : ℕ} {part : List ℕ} {q : List PacketData} {p : PacketData}
    (v : Serving s i cap slots part q) (w : Accepted v.conn q p)
    → Serving
        (record (put_job s i none) { core = update s.core i w.after })
        i
        cap
        slots
        part
        (q ++ (p ∷ []))
sent-Serving {s} {i} v w = record {
  conn = w.after;
  found = get_connection-update_self s.core i w.after v.found;
  reads = record {
    valid = subst SlideBuffer.IsValid (sym w.same.same_buffer) v.reads.valid;
    sized = ap (λ b. b.capacity) w.same.same_buffer ∙ v.reads.sized;
    held = ap contents w.same.same_buffer ∙ v.reads.held;
  };
  sendable = w.sendable;
  on = w.same.same_state ∙ v.on;
  ring_size = w.same.same_ring_size ∙ v.ring_size;
  has_slot = omega (arith, v.has_slot, length-set s.jobs i none);
}

-- What one round needs: a block, a valid packet of PACKET_SIZE bytes, and a send that starts.
pub record Grants (a : Answers) : Type 0 where
  pub fresh : PacketData
  pub block : a.block ≡ true
  pub packet : a.packet ≡ some fresh
  pub valid : IsValid fresh
  pub wide : packet_size ≤ fresh.capacity
  pub started : a.started ≡ true

-- The client reads `p` as the answer to the echo request with this number and this payload.
abbrev pub IsEcho : ℕ → List ℕ → PacketData → Type 0
IsEcho number payload p =
    (read_info (bytes p) ≡ some (96, code_value req_success, number, padded payload))

-- What a round makes of a server that has an echo request in front.
pub record Round (s : Server) (i cap slots : ℕ) (a : Answers) (number : ℕ) (payload rest : List ℕ)
    (q : List PacketData) : Type 0 where
  pub after : Server
  pub answer : PacketData
  pub goes_on : (again : Rounds) → parse_case s i a again ≡ again after
  pub serving : Serving after i cap slots rest (q ++ (answer ∷ []))
  pub echoed : IsEcho number payload answer

parse_case-done :
    (s s1 s2 : Server) {t : Server} (i : ℕ) (a : Answers)
    → parse_req s i a ≡ some (true, s1)
    → execute_req s1 i a ≡ some (true, s2)
    → send_res s2 i a ≡ some (true, t)
    → (again : Rounds) → parse_case s i a again ≡ again t
unfolding parse_case execute_case send_case
parse_case-done s s1 s2 i a e f g again = rw (e, f, g)

pub Round-of_Serving :
    {s : Server} {i cap slots : ℕ} {a : Answers} {number : ℕ} {payload rest : List ℕ}
    {q : List PacketData}
    → Serving s i cap slots (request 0 number payload ++ rest) q
    → Grants a
    → length payload ≤ 80
    → number < 2 ^ 32
    → suc (length q) < slots
    → Round s i cap slots a number payload rest q
Round-of_Serving {s} {i} {cap} {slots} {a} {number} {payload} {rest} {q} v g h k room =
    let framed = request-Framed number payload h in
    let (b, sb, popped, reads) = pop_recv_buffer-whole (request 0 number payload) rest v.reads in
    let (p, made, done, wire, valid, size) = echo_answer i number payload g.valid g.wide h k in
    let d : Connection = record v.conn { recv_buffer = sb } in
    let s1 : Server = record (put_job s i (some (echoes (padded payload) i number none))) {
      core = update s.core i d;
    } in
    let s2 : Server = put_job s1 i (some (echoes (padded payload) i number (some p))) in
    let slot1 : i < length s1.jobs =
      omega
        (arith, v.has_slot, length-set s.jobs i (some (echoes (padded payload) i number none))) in
    let slot2 : i < length s2.jobs =
      omega
        (arith, slot1, length-set s1.jobs i (some (echoes (padded payload) i number (some p)))) in
    let fits : p.size ≡ 96 = sym (get_size_lem p) ∙ size in
    let sent : Accepted d q p =
      send_msg_tcp-Accepted p
        (record { ring = v.sendable.ring; valid = v.sendable.valid; sized = v.sendable.sized })
        (valid, omega (arith, fits), omega (arith, fits)) v.on (omega (arith, room, v.ring_size)) in
    let parsed : parse_req s i a ≡ some (true, s1) =
      parse_req-whole s i a v.has_slot v.found (get_req_message-whole rest v.reads framed)
        (ap (create_job i (request 0 number payload)) g.block ∙ made) (rw popped) in
    let executed : execute_req s1 i a ≡ some (true, s2) =
      execute_req-done s1 i a slot1
        (job_at-set s.jobs i (some (echoes (padded payload) i number none)) v.has_slot) g.packet
        done in
    let answered =
      send_res-done s2 i a slot2
        (job_at-set s1.jobs i (some (echoes (padded payload) i number (some p))) slot1)
        (send_msg_func-tcp (update s.core i d) i a p (get_connection-update_self s.core i d v.found)
          g.started sent.answered) in
    let before : Serving s2 i cap slots rest q = record {
      conn = d;
      found = get_connection-update_self s.core i d v.found;
      reads = reads;
      sendable = record {
        ring = v.sendable.ring;
        valid = v.sendable.valid;
        sized = v.sendable.sized;
      };
      on = v.on;
      ring_size = v.ring_size;
      has_slot = slot2;
    } in
    record {
      after = record (put_job s2 i none) { core = update (update s.core i d) i sent.after };
      answer = p;
      goes_on = parse_case-done s s1 s2 i a parsed executed answered;
      serving = sent-Serving before sent;
      echoed = wire;
    }
