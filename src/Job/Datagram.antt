-- ===== src/Job/Datagram.antt =====
-- The UDP echo: from a datagram as a client writes it to the packet that answers it.
use socket_server_lib.Prelude.{
  ℕ, ◌+◌, ◌-◌, ◌≤◌, ◌≡◌, refl, ap, ◌∙◌, true, false, Option, none, some, List, [], ◌++◌, arith,
  length, drop, le32, read32, zero_memory, copy_memory, copy_memory-zero_memory, take_of_length_le,
  take-length-append, length-append, read32-append, drop-append_of_le, Bool, read32-le32, ltb,
}
use socket_server_lib.PacketData.{PacketData, IsValid, bytes, packet_size, req_success, code_value}
use socket_server_lib.PacketData.Wire.{read_info}
use socket_server_lib.Job.{
  Job, construct, udp_echo_job, parse, make_job, call_create_func, create_udp_job,
  udp_req_message_size, req_message_size, header_size, beyond_last, echo_parameter_size, execute,
  le64,
}
use socket_server_lib.Job.Answer.{padded, length-padded, answer-read_info}

-- A datagram: its size, the type, the client's token, the size of the payload, the payload.
abbrev pub udp_request : ℕ → List ℕ → List ℕ
udp_request token payload =
    le32 (20 + length payload) ++ (le32 2 ++ (le64 token ++ (le32 (length payload) ++ payload)))

-- The job of a UDP echo request.
abbrev pub udp_echoes : List ℕ → ℕ → Option PacketData → Job
udp_echoes param client packet = record {
  kind = udp_echo_job;
  param = param;
  client = client;
  req_no = 0;
  packet = packet;
}

call_create_func-udp_echo :
    (payload : List ℕ) (z : ℕ)
    → length payload ≤ echo_parameter_size
    → call_create_func 2 (payload ++ zero_memory z) (length payload) true
      ≡ some (some (record (construct udp_echo_job) { param = padded payload }))
unfolding call_create_func make_job parse
call_create_func-udp_echo payload z h = rw (
  fits,
  copy_memory-zero_memory echo_parameter_size (payload ++ zero_memory z) (length payload)
      (omega (arith, length-append payload (zero_memory z))) h,
  take-length-append payload (zero_memory z),
)
  where
    fits : ltb echo_parameter_size (length payload) ≡ false
    fits = ground (arith, h)

-- `UDPReqMessage reqMsg{}` with the bytes of a datagram over its front.
abbrev pub udp_image : List ℕ → List ℕ
udp_image sv = sv ++ zero_memory (udp_req_message_size - length sv)

pub udp_image_copied :
    (sv : List ℕ)
    → length sv ≤ req_message_size
    → copy_memory (zero_memory udp_req_message_size) 0 sv (length sv) ≡ some (udp_image sv)
udp_image_copied sv h =
    copy_memory-zero_memory udp_req_message_size sv (length sv) (omega arith) (omega (arith, h))
    ∙ ap (λ l. some (l ++ zero_memory (udp_req_message_size - length sv)))
        (take_of_length_le (length sv) sv (omega arith))

pub udp_word :
    (k : ℕ) (sv : List ℕ) {w : ℕ}
    → k ≤ length sv
    → read32 (drop k sv) ≡ some w
    → read32 (drop k (udp_image sv)) ≡ some w
udp_word k sv h e =
    ap read32 (drop-append_of_le k sv (zero_memory (udp_req_message_size - length sv)) h)
    ∙ read32-append (drop k sv) (zero_memory (udp_req_message_size - length sv)) e

create_udp_job-made :
    (client : ℕ) (sv : List ℕ) (granted : Bool) {type n : ℕ} {made : Option Job}
    → 16 ≤ length sv
    → length sv ≤ req_message_size
    → read32 (drop 4 sv) ≡ some type
    → read32 (drop 16 sv) ≡ some n
    → type ≤ 2
    → call_create_func type (drop 20 (udp_image sv)) n granted ≡ some made
    → create_udp_job client sv granted
      ≡ some (elim made [ none ↦ none | some job ↦ some (record job { client = client }) ])
unfolding create_udp_job
create_udp_job-made client sv granted {type} {n} {made} h k e f small g = rw (
  long_enough,
  fits,
  udp_image_copied sv k,
  udp_word 4 sv (omega (arith, h)) e,
  udp_word 16 sv h f,
  known,
  g,
)
  where
    long_enough : ltb (length sv) header_size ≡ false
    long_enough = ground (arith, h)

    fits : ltb req_message_size (length sv) ≡ false
    fits = ground (arith, k)

    known : beyond_last type ≡ false
    known = ground (arith, small)

create_udp_job-echo :
    (client token : ℕ) (payload : List ℕ)
    → length payload ≤ echo_parameter_size
    → create_udp_job client (udp_request token payload) true
      ≡ some (some (udp_echoes (padded payload) client none))
create_udp_job-echo client token payload h =
    create_udp_job-made client (udp_request token payload) true {type = 2} {n = length payload}
      (omega arith) (omega (arith, h)) refl
      (read32-le32 (length payload) payload (omega (arith, h))) (omega arith)
      (call_create_func-udp_echo payload (udp_req_message_size - length (udp_request token payload))
        h)

-- A UDP echo request with a payload of at most `sizeof(EchoParameter)` bytes makes a job, and with a
-- valid packet of at least PACKET_SIZE bytes from the pool its answer is read as a success with the
-- number 0 and the payload, filled up with zeros to `sizeof(EchoParameter)`.
pub udp_echo_answer :
    {p : PacketData} (client token : ℕ) (payload : List ℕ)
    → IsValid p
    → packet_size ≤ p.capacity
    → length payload ≤ echo_parameter_size
    → (q : PacketData) × (create_udp_job client (udp_request token payload) true
        ≡ some (some (udp_echoes (padded payload) client none)))
      × (execute (udp_echoes (padded payload) client none) (some p) 0
          ≡ some (true, udp_echoes (padded payload) client (some q), []))
      × (read_info (bytes q) ≡ some (96, code_value req_success, 0, padded payload))
      × IsValid q
unfolding execute
udp_echo_answer {p} client token payload v c h =
    let (q, e, wire, valid, total) =
      answer-read_info (udp_echoes (padded payload) client none) (padded payload) v c
        (omega (arith, length-padded payload h)) (omega arith) in
    (
      q,
      create_udp_job-echo client token payload h,
      e,
      wire
          ∙ ap (λ n. some (n + 12, code_value req_success, 0, padded payload))
              (length-padded payload h),
      valid,
    )
