-- ===== src/GameServer.antt =====
-- IOCP_TCP+UDP/RacingGameServer/RacingGameServer/GameServer.cpp: the requests of a client, taken one by
-- one from its bytes, executed and answered. A step that cannot be finished is taken up again by
-- the next call. What the pools, the clock and the socket library give are arguments.
pub mod Send
pub mod Round
pub mod Serve
pub mod Stuck
pub mod Resume
pub mod Datagram
pub mod Arrival
mod Tests
use socket_server_lib.Prelude.{
  ℕ, zero, suc, Bool, true, false, Option, none, some, List, length, ltb, if◌then◌else◌, ◌>>=◌,
  get_or, set,
}
use socket_server_lib.PacketData.{
  PacketData, InfoCode, req_success, req_failed, not_finished, other_err, not_my_turn,
}
use socket_server_lib.Connection.{
  Connection, JobProcess, parsing, execute, send, get_req_message, pop_recv_buffer, set_job_process,
  get_job_process,
}
use socket_server_lib.Core.{Core, get_connection, update, get_udp_token}
use socket_server_lib.Core.Udp.{UdpSendContext, send_msg_tcp, send_msg_udp}
use socket_server_lib.Job
use socket_server_lib.Job.{
  Job, JobKind, echo_job, req_token_job, udp_echo_job, SendProtocol, tcp, udp, create_job, protocol,
}

-- `jobs` is `m_Jobs`, and `locks` the length of `ProcessLocks`.
pub record Server : Type 0 where
  pub core : Core
  pub jobs : List (Option Job)
  pub locks : ℕ

-- What the world gives in one round: a block for a job, a packet, the clock, whether WSASend does not
-- fail, a context for UDP, and whether WSASendTo does not fail.
pub record Answers : Type 0 where
  pub block : Bool
  pub packet : Option PacketData
  pub stamp : ℕ
  pub started : Bool
  pub context : Bool
  pub udp_started : Bool

-- `m_Jobs[i]`, none also where it has no such entry.
unfoldable pub job_at : List (Option Job) → ℕ → Option Job
job_at jobs i = if ltb i (length jobs) then get_or jobs i none else none

abbrev pub put_job : Server → ℕ → Option Job → Server
put_job s i job = record s { jobs = set s.jobs i job }

-- `IOCPCore::GetReqMsg` and `IOCPCore::PopReqMsg` are these two on the client's connection.
abbrev pub take_req : Connection → List ℕ → Option Connection
take_req c sv = pop_recv_buffer c (length sv) >>= λ r. some r.1

-- A job that is still there is given back, with its packet.
pub parse_req : Server → ℕ → Answers → Option (Bool × Server)
parse_req s i a =
    if ltb i (length s.jobs)
    then elim (get_connection s.core i) [
      | none ↦ some (false, s)
      | some c ↦ get_req_message c >>= λ msg. elim msg [
        | none ↦ some (false, s)
        | some sv ↦ create_job i sv a.block >>= λ made. elim made [
          | none ↦ some (false, s)
          | some job ↦ take_req c sv >>= λ d.
              some (true, record (put_job s i (some job)) { core = update s.core i d })
        ]
      ]
    ]
    else some (false, s)

-- `getTokenFunc`, which only a token request calls.
pub fetch_token : JobKind → Core → ℕ → ℕ → ℕ × Core
fetch_token echo_job core i stamp = (0, core)
fetch_token req_token_job core i stamp = get_udp_token core i stamp
fetch_token udp_echo_job core i stamp = (0, core)

pub execute_req : Server → ℕ → Answers → Option (Bool × Server)
execute_req s i a = elim (job_at s.jobs i) [
  | none ↦ some (false, s)
  | some job ↦
      let t : ℕ × Core = fetch_token job.kind s.core job.client a.stamp in
      Job.execute job a.packet t.0 >>= λ r.
      some (r.0, record (put_job s i (some r.1)) { core = t.1 })
]

-- What a call of `SendMsgFunc` gives to the system: the buffers of a TCP send, or the context of a UDP
-- send that was started.
abbrev pub Sent : Type 0
Sent = Option (List (List ℕ)) × Option UdpSendContext

-- `SendMsgFunc`, with what it sends.
pub send_msg_sent :
    Core → ℕ → Option PacketData → SendProtocol → Answers → Option (Bool × Core × Sent)
send_msg_sent core i none protocol a = some (false, core, (none, none))
send_msg_sent core i (some p) tcp a =
    send_msg_tcp core i (some p) a.started >>= λ r. some (r.0, r.1, (r.2, none))
send_msg_sent core i (some p) udp a =
    let r : Bool × Option UdpSendContext = send_msg_udp core i (some p) a.context a.udp_started in
    some (r.0, core, (none, r.1))

pub send_msg_func : Core → ℕ → Option PacketData → SendProtocol → Answers → Option (Bool × Core)
send_msg_func core i packet protocol a =
    send_msg_sent core i packet protocol a >>= λ r. some (r.0, r.1)

-- A job that is done is given back, without its packet.
pub send_res : Server → ℕ → Answers → Option (Bool × Server)
send_res s i a = elim (job_at s.jobs i) [
  | none ↦ some (false, s)
  | some job ↦ send_msg_func s.core job.client job.packet (protocol job.kind) a >>= λ r.
      if (Job.send_res job r.0).0
      then some (true, record (put_job s i none) { core = r.1 })
      else some (false, record s { core = r.1 })
]

pub set_process : Server → ℕ → JobProcess → Server
set_process s i e = elim (get_connection s.core i) [
  | none ↦ s
  | some c ↦ record s { core = update s.core i (set_job_process c e) }
]

unfoldable pub get_process : Server → ℕ → JobProcess
get_process s i = elim (get_connection s.core i) [ none ↦ parsing | some c ↦ get_job_process c ]

-- The cases of the switch in `HandleReq`, each falling into the next; `again` is the next round.
abbrev pub Rounds : Type 0
Rounds = Server → Option (InfoCode × Server)

pub send_case : Server → ℕ → Answers → Rounds → Option (InfoCode × Server)
send_case s i a again =
    send_res s i a >>= λ r. if r.0 then again r.1 else some (not_finished, set_process r.1 i send)

pub execute_case : Server → ℕ → Answers → Rounds → Option (InfoCode × Server)
execute_case s i a again = execute_req s i a >>= λ r.
    if r.0 then send_case r.1 i a again else some (not_finished, set_process r.1 i execute)

pub parse_case : Server → ℕ → Answers → Rounds → Option (InfoCode × Server)
parse_case s i a again = parse_req s i a >>= λ r.
    if r.0 then execute_case r.1 i a again else some (req_failed, set_process r.1 i parsing)

-- The loop of `HandleReq`; `answers n` is what the world gives in round `n` from here.
pub handle_loop : ℕ → (ℕ → Answers) → Server → ℕ → JobProcess → Option (InfoCode × Server)
handle_loop zero answers s i e = none
handle_loop (suc fuel) answers s i e =
    let again : Rounds = λ t. handle_loop fuel (λ n. answers (suc n)) t i parsing in
    elim e [
      | parsing ↦ parse_case s i (answers 0) again
      | execute ↦ execute_case s i (answers 0) again
      | send ↦ send_case s i (answers 0) again
    ]

abbrev pub received_size : Server → ℕ → ℕ
received_size s i = elim (get_connection s.core i) [ none ↦ 0 | some c ↦ c.recv_buffer.size ]

-- `owns` says whether `try_lock` gets the client's lock. A round that begins with a message takes bytes
-- off the receive buffer, so there are at most as many as bytes, the first one, and the last.
pub handle_req : Server → ℕ → Bool → (ℕ → Answers) → Option (InfoCode × Server)
handle_req s i owns answers =
    if ltb i s.locks
    then (if owns
        then handle_loop (suc (suc (received_size s i))) answers s i (get_process s i)
        else some (not_my_turn, s))
    else some (other_err, s)

-- The call that `OnUDPReceive` queues for the job of a datagram, with what it sends. It answers
-- REQ_SUCCESS whatever happens, so it is not queued again, and the job is given back.
pub udp_task : Core → Job → Answers → Option (InfoCode × Core × Sent)
udp_task core job a =
    let t : ℕ × Core = fetch_token job.kind core job.client a.stamp in
    Job.execute job a.packet t.0 >>= λ r.
    if r.0
    then (send_msg_sent t.1 r.1.client r.1.packet (protocol r.1.kind) a >>= λ w.
        some (req_success, w.1, w.2))
    else some (req_success, t.1, (none, none))
