-- ===== src/Epoll/Jobs.antt =====
-- Epoll/LT/EpollServerLib/EpollServerLib/{JobFactory,Job,GameServer}.cpp and PacketData.hpp: from the
-- message that `OnReceive` is called with to the answer that `JobThread` sends.
pub mod Round
pub mod Retry
pub mod Echo
use socket_server_lib.Prelude.{
  ℕ, zero, suc, ◌+◌, ◌-◌, ◌^◌, ◌≤◌, ◌<◌, ◌≡◌, Bool, true, false, not, ◌&&◌, ◌||◌, Option, none,
  some, List, [], ◌∷◌, ◌++◌, length, drop, ltb, leb, ◌==◌, if◌then◌else◌, ◌>>=◌, replicate, set,
  get_elem?, read32, copy_memory, zero_memory,
}
use socket_server_lib.PacketData.{
  PacketData, InfoCode, req_success, req_failed, not_finished, code_value, info_header_size,
  write_header, append,
}
use socket_server_lib.Epoll.Server.{EpollServer, send_msg}

-- PACKET_SIZE, `sizeof(ReqHeader)` and `sizeof(EchoParameter)`
abbrev pub packet_size : ℕ
packet_size = 4096

abbrev pub req_header_size : ℕ
req_header_size = 12

abbrev pub echo_parameter_size : ℕ
echo_parameter_size = 84

-- `ReqType::LAST`
abbrev pub last_type : ℕ
last_type = 0

-- An `EchoJob`; `param` is the memory of `m_param`.
pub record EchoJob : Type 0 where
  pub socket : ℕ
  pub req_no : ℕ
  pub param : List ℕ

-- What `new` in the function of the table makes. `garbage` is what the memory of `m_param` held.
pub construct : ℕ → ℕ → List ℕ → EchoJob
construct fd req_no garbage = record { socket = fd; req_no = req_no; param = garbage }

-- The table that `JobFactory::Init` fills: `true` where a function is registered.
abbrev pub create_funcs : List Bool
create_funcs = set (replicate (last_type + 1) false) 0 true

-- `Parse` of `n` bytes from `sv`.
pub parse : EchoJob → List ℕ → ℕ → Option (Bool × EchoJob)
parse job sv n =
    if n == echo_parameter_size
    then (copy_memory job.param 0 sv n >>= λ b. some (true, record job { param = b }))
    else some (false, job)

-- `reqType > LAST || reqType < 0` on an `int32_t`, here its pattern.
pub is_invalid : ℕ → Bool
is_invalid type = (ltb last_type type && ltb type (2 ^ 31)) || leb (2 ^ 31) type

-- `createFuncs[reqType]`, a fault outside the table, and what follows.
pub call_create_func : ℕ → ℕ → List ℕ → ℕ → List ℕ → Option (Option EchoJob)
call_create_func type fd sv req_no garbage = elim (get_elem? create_funcs type) [
  | none ↦ none
  | some false ↦ some none
  | some true ↦
      parse (construct fd req_no garbage) (drop req_header_size sv) (length sv - req_header_size)
      >>= λ r. some (if r.0 then some r.1 else none)
]

pub create_job : ℕ → List ℕ → List ℕ → Option (Option EchoJob)
create_job fd sv garbage =
    if ltb (length sv) req_header_size
    then some none
    else (copy_memory (zero_memory req_header_size) 0 sv req_header_size >>= λ header.
        read32 (drop 4 header) >>= λ type. read32 (drop 8 header) >>= λ req_no.
        if is_invalid type then some none else call_create_func type fd sv req_no garbage)

-- `PacketData()`; `block` is what `new(std::nothrow)` gives.
pub new_packet : Option (List ℕ) → PacketData
new_packet none = record { buf = []; size = 0; capacity = packet_size }
new_packet (some block) = record { buf = block; size = 0; capacity = packet_size }

-- `Init<T>(infoCode_, reqNo_, T& objData_)` over the bytes of the object.
pub init_object : PacketData → InfoCode → ℕ → List ℕ → Option (Bool × PacketData)
init_object p code req_no image =
    let total : ℕ = length image + info_header_size in
    if ltb packet_size total
    then some (false, p)
    else (write_header p total (code_value code) req_no >>= λ a.
        if ltb 0 (length image)
        then (append a image (length image) >>= λ b. some (true, b))
        else some (true, a))

-- `Execute`, with the function that `GameServer::Start` sets. The answers of the system calls are those
-- of `send` and `epoll_ctl`.
pub execute :
    EchoJob
    → EpollServer
    → Option (List ℕ)
    → Option ℕ
    → Bool
    → Option (InfoCode × EpollServer × List ℕ)
execute job server block sent changed =
    init_object (new_packet block) req_success job.req_no job.param >>= λ p.
    send_msg server job.socket (some p.1) sent changed >>= λ r.
    some (if r.0 then req_success else not_finished, r.1, r.2)

pub record GameServer : Type 0 where
  pub server : EpollServer
  pub job_queue : List EchoJob

-- A message that makes no job is dropped.
pub on_receive : GameServer → ℕ → List ℕ → List ℕ → Option GameServer
on_receive game fd sv garbage = create_job fd sv garbage >>= λ made. some (elim made [
  | none ↦ game
  | some job ↦ record game { job_queue = game.job_queue ++ (job ∷ []) }
])

-- What the job thread makes of a job's answer.
pub requeue : InfoCode → EchoJob → List EchoJob → List EchoJob
requeue not_finished job queue = queue ++ (job ∷ [])
requeue _ job queue = queue

-- One round of `JobThread`, with the bytes that go out.
pub job_round : GameServer → Option (List ℕ) → Option ℕ → Bool → Option (GameServer × List ℕ)
job_round game block sent changed = elim game.job_queue [
  | [] ↦ some (game, [])
  | job ∷ queue ↦ execute job game.server block sent changed >>= λ r.
      some (record { server = r.1; job_queue = requeue r.0 job queue }, r.2)
]
