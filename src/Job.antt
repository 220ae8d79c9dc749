-- ===== src/Job.antt =====
-- IOCP_TCP+UDP/RacingGameServer/RacingGameServer/Job.cpp and NetworkMessage.hpp: a request, from the
-- bytes of a message to the packet with its answer. What the pools give and what the sending
-- functions answer are arguments.
pub mod Create
pub mod Answer
pub mod Datagram
pub mod Fault
mod Tests
use socket_server_lib.Prelude.{
  ℕ, ◌+◌, ◌-◌, ◌/◌, ◌^◌, Bool, true, false, ◌&&◌, Option, none, some, List, [], ◌∷◌, ◌++◌, ltb,
  if◌then◌else◌, ◌>>=◌, length, get_elem?, set, drop, replicate, le32, read32, copy_memory,
  zero_memory,
}
use socket_server_lib.PacketData.{PacketData, req_success, init_object}

-- HEADER_SIZE, `sizeof(ReqMessage)`, `sizeof(UDPReqMessage)` (which 8-byte words align) and
-- `sizeof(EchoParameter)`
abbrev pub header_size : ℕ
header_size = 12

abbrev pub req_message_size : ℕ
req_message_size = 8196

abbrev pub udp_req_message_size : ℕ
udp_req_message_size = 8200

abbrev pub echo_parameter_size : ℕ
echo_parameter_size = 84

-- `ReqType::LAST`
abbrev pub last_type : ℕ
last_type = 2

-- The classes derived from `Job`.
pub data JobKind : Type 0 where
  echo_job req_token_job udp_echo_job : JobKind

-- `param` is the memory of `m_param`, and `packet` is `none` for nullptr.
pub record Job : Type 0 where
  pub kind : JobKind
  pub param : List ℕ
  pub client : ℕ
  pub req_no : ℕ
  pub packet : Option PacketData

abbrev pub param_size : JobKind → ℕ
param_size echo_job = echo_parameter_size
param_size req_token_job = 0
param_size udp_echo_job = echo_parameter_size

-- What the constructors make.
abbrev pub construct : JobKind → Job
construct kind = record {
  kind = kind;
  param = zero_memory (param_size kind);
  client = 0;
  req_no = 0;
  packet = none;
}

-- `Register`, and the table that the constructor of `JobFactory` fills.
abbrev pub register : List (Option JobKind) → ℕ → JobKind → List (Option JobKind)
register funcs type kind = set funcs type (some kind)

abbrev pub create_funcs : List (Option JobKind)
create_funcs =
    register (register (register (replicate (last_type + 1) none) 0 echo_job) 1 req_token_job) 2
      udp_echo_job

-- In a `Parse`, `sv` is the memory behind the pointer of the view, of which `n` bytes are its.
abbrev pub echo_parse : List ℕ → List ℕ → ℕ → Option (Bool × List ℕ)
echo_parse param sv n =
    if ltb echo_parameter_size n
    then some (false, param)
    else (copy_memory param 0 sv n >>= λ b. some (true, b))

abbrev pub req_token_parse : List ℕ → List ℕ → ℕ → Option (Bool × List ℕ)
req_token_parse param sv n = some (true, param)

abbrev pub udp_echo_parse : List ℕ → List ℕ → ℕ → Option (Bool × List ℕ)
udp_echo_parse param sv n =
    if ltb echo_parameter_size n
    then some (false, param)
    else (copy_memory (zero_memory echo_parameter_size) 0 sv n >>= λ b. some (true, b))

pub parse : JobKind → List ℕ → List ℕ → ℕ → Option (Bool × List ℕ)
parse echo_job param sv n = echo_parse param sv n
parse req_token_job param sv n = req_token_parse param sv n
parse udp_echo_job param sv n = udp_echo_parse param sv n

-- The function in the table, and `Parse` of the job that it makes, if the pool grants a block.
pub make_job : JobKind → List ℕ → ℕ → Bool → Option (Option Job)
make_job kind sv n granted =
    if granted
    then (parse kind (construct kind).param sv n >>= λ r.
        some (if r.0 then some (record (construct kind) { param = r.1 }) else none))
    else some none

-- `reqType > LAST` on an `int32_t`, here its pattern.
abbrev pub beyond_last : ℕ → Bool
beyond_last type = ltb last_type type && ltb type (2 ^ 31)

-- `createFuncs[reqType]`, a fault outside the table, and the call of what it holds.
pub call_create_func : ℕ → List ℕ → ℕ → Bool → Option (Option Job)
call_create_func type sv n granted = elim (get_elem? create_funcs type) [
  | none ↦ none
  | some none ↦ some none
  | some (some kind) ↦ make_job kind sv n granted
]

-- `sv` are the bytes of the message. The view of the payload begins behind `payloadSize`, and has the
-- bytes of the message less those of the header.
pub create_job : ℕ → List ℕ → Bool → Option (Option Job)
create_job client sv granted =
    if ltb (length sv) header_size
    then some none
    else if ltb req_message_size (length sv)
    then some none
    else (copy_memory (zero_memory req_message_size) 0 sv (length sv) >>= λ msg.
        read32 (drop 4 msg) >>= λ type. read32 (drop 8 msg) >>= λ number.
        if beyond_last type
        then some none
        else (call_create_func type (drop 16 msg) (length sv - header_size) granted >>= λ made.
            some (elim made [
              | none ↦ none
              | some job ↦ some (record job { client = client; req_no = number })
            ])))

pub create_udp_job : ℕ → List ℕ → Bool → Option (Option Job)
create_udp_job client sv granted =
    if ltb (length sv) header_size
    then some none
    else if ltb req_message_size (length sv)
    then some none
    else (copy_memory (zero_memory udp_req_message_size) 0 sv (length sv) >>= λ msg.
        read32 (drop 4 msg) >>= λ type. read32 (drop 16 msg) >>= λ payload_size.
        if beyond_last type
        then some none
        else (call_create_func type (drop 20 msg) payload_size granted >>= λ made.
            some (elim made [ none ↦ none | some job ↦ some (record job { client = client }) ])))

-- A `uint64_t` in memory.
abbrev pub le64 : ℕ → List ℕ
le64 w = le32 w ++ le32 (w / 2 ^ 32)

abbrev pub packets : Option PacketData → List PacketData
packets none = []
packets (some p) = p ∷ []

-- The part that the three `Execute` share, with the bytes of the answer's body; `packet` is what the
-- pool gives. The result has the packets that go back to the pool.
pub answer : Job → Option PacketData → List ℕ → Option (Bool × Job × List PacketData)
answer job none body = some (false, job, [])
answer job (some p) body = init_object p req_success job.req_no body >>= λ r.
    if r.0
    then some (true, record job { packet = some r.1 }, packets job.packet)
    else some (false, job, r.1 ∷ [])

abbrev pub echo_execute : Job → Option PacketData → Option (Bool × Job × List PacketData)
echo_execute job packet = answer job packet job.param

-- `token` is what `getTokenFunc` gives.
abbrev pub req_token_execute : Job → Option PacketData → ℕ → Option (Bool × Job × List PacketData)
req_token_execute job packet token = answer job packet (le64 token)

abbrev pub udp_echo_execute : Job → Option PacketData → Option (Bool × Job × List PacketData)
udp_echo_execute job packet = answer job packet job.param

pub execute : Job → Option PacketData → ℕ → Option (Bool × Job × List PacketData)
execute job packet token = elim job.kind [
  | echo_job ↦ echo_execute job packet
  | req_token_job ↦ req_token_execute job packet token
  | udp_echo_job ↦ udp_echo_execute job packet
]

pub data SendProtocol : Type 0 where
  tcp udp : SendProtocol

unfoldable pub protocol : JobKind → SendProtocol
protocol echo_job = tcp
protocol req_token_job = tcp
protocol udp_echo_job = udp

-- The three `SendRes`; `sent` is what `sendFunc` answers.
unfoldable pub send_res : Job → Bool → Bool × Job
send_res job sent = if sent then (true, record job { packet = none }) else (false, job)
