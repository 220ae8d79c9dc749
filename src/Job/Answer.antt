-- ===== src/Job/Answer.antt =====
-- From a request as a client writes it to the packet that answers it.
use socket_server_lib.Prelude.{
  ℕ, ◌+◌, ◌-◌, ◌^◌, ◌≤◌, ◌<◌, ◌≡◌, refl, ap, ◌∙◌, true, Option, none, some, List, [], ◌++◌, arith,
  length, take, drop, false, le32, zero_memory, copy_memory-zero_memory, take-append_of_ge,
  take-zero_memory, length-zero_memory, zero_memory-append, append_assoc, take_of_length_le,
  length-append, read32-le32, ltb,
}
use socket_server_lib.PacketData.{
  PacketData, IsValid, bytes, packet_size, req_success, code_value, init_object, get_size,
}
use socket_server_lib.PacketData.Wire.{read_info, read_info-init_bytes}
use socket_server_lib.Job.{
  Job, construct, echo_job, req_token_job, parse, make_job, call_create_func, create_job,
  req_message_size, echo_parameter_size, execute, answer, packets, le64,
}
use socket_server_lib.Job.Create.{image, create_job-tried}

-- A request: the size of the message, its type, its number, the size of the payload, the payload.
abbrev pub request : ℕ → ℕ → List ℕ → List ℕ
request type number payload =
    le32 (16 + length payload) ++ (le32 type ++ (le32 number ++ (le32 (length payload) ++ payload)))

abbrev pub padded : List ℕ → List ℕ
padded payload = payload ++ zero_memory (echo_parameter_size - length payload)

-- A job with a parameter, when what the view has fits it.
call_create_func-echo :
    (view : List ℕ) (n : ℕ)
    → n ≤ length view
    → n ≤ echo_parameter_size
    → call_create_func 0 view n true
      ≡ some (
          some (record (construct echo_job) {
            param = take n view ++ zero_memory (echo_parameter_size - n);
          }))
unfolding call_create_func make_job parse
call_create_func-echo view n h k = rw (fits, copy_memory-zero_memory echo_parameter_size view n h k)
  where
    fits : ltb echo_parameter_size n ≡ false
    fits = ground (arith, k)

-- The four bytes of the view that lie behind the payload are zeros.
view_front :
    (payload : List ℕ) (n z : ℕ)
    → n ≡ length payload + 4
    → 4 ≤ z
    → length payload ≤ 80
    → take n (payload ++ zero_memory z) ++ zero_memory (echo_parameter_size - n) ≡ padded payload
view_front payload n z e h k =
    ap (λ l. l ++ zero_memory (echo_parameter_size - n))
      (take-append_of_ge n payload (zero_memory z) (omega arith)
        ∙ ap (◌++◌ payload) (take-zero_memory (n - length payload) z (omega arith)))
    ∙ append_assoc payload (zero_memory (n - length payload))
        (zero_memory (echo_parameter_size - n))
    ∙ ap (◌++◌ payload)
        (zero_memory-append (n - length payload) (echo_parameter_size - n) ∙ ap zero_memory sum)
  where
    sum : (n - length payload) + (echo_parameter_size - n) ≡ echo_parameter_size - length payload
    sum = omega (arith, e, k)

-- The job of an echo request.
abbrev pub echoes : List ℕ → ℕ → ℕ → Option PacketData → Job
echoes param client number packet = record {
  kind = echo_job;
  param = param;
  client = client;
  req_no = number;
  packet = packet;
}

module _ (client number : ℕ) (payload : List ℕ) (h : length payload ≤ 80)
    (k : number < 2 ^ 32) where
  abbrev echo_view : List ℕ
  echo_view = payload ++ zero_memory (req_message_size - length (request 0 number payload))

  pub create_job-echo :
      create_job client (request 0 number payload) true
      ≡ some (some (echoes (padded payload) client number none))
  unfolding image
  create_job-echo =
      create_job-tried client (request 0 number payload) true {type = 0} {number = number}
        (omega arith) (omega arith) refl (read32-le32 number (le32 (length payload) ++ payload) k)
      ∙ rw
          (call_create_func-echo echo_view (length (request 0 number payload) - 12)
            (omega (
              arith,
              length-append {0} payload
                  (zero_memory (req_message_size - length (request 0 number payload))),
              length-zero_memory (req_message_size - length (request 0 number payload)),
            ))
            (omega arith))
          (ap (λ param. some (some (echoes param client number none)))
            (view_front payload (length (request 0 number payload) - 12)
              (req_message_size - length (request 0 number payload)) (omega arith) (omega arith) h))

-- With a packet from the pool: what the client reads of the answer.
pub answer-read_info :
    {p : PacketData} (job : Job) (body : List ℕ)
    → IsValid p
    → packet_size ≤ p.capacity
    → length body ≤ echo_parameter_size
    → job.req_no < 2 ^ 32
    → (q : PacketData) × (answer job (some p) body
        ≡ some (true, record job { packet = some q }, packets job.packet))
      × (read_info (bytes q) ≡ some (length body + 12, code_value req_success, job.req_no, body))
      × IsValid q
      × (get_size q ≡ length body + 12)
unfolding answer init_object
answer-read_info {p} job body v c h k =
    let (q, e, wire, size, valid) =
      read_info-init_bytes {p = p} req_success job.req_no body (length body) v c (omega arith)
        (omega (arith, h)) k in
    (
      q,
      rw e,
      wire
          ∙ ap (λ b. some (length body + 12, code_value req_success, job.req_no, b))
              (take_of_length_le (length body) body (omega arith)),
      valid,
      size,
    )

pub length-padded :
    (payload : List ℕ) → length payload ≤ echo_parameter_size → length (padded payload) ≡ 84
length-padded payload h = omega (
  arith,
  length-append {0} payload (zero_memory (echo_parameter_size - length payload)),
  length-zero_memory (echo_parameter_size - length payload),
  h,
)

-- An echo request with a payload of at most 80 bytes and a number below 2 ^ 32 makes its
-- client's echo job. With a valid packet of at least PACKET_SIZE bytes from the pool its answer
-- is a valid packet of 96 bytes, which the client reads as a success with the request's number
-- and the payload, filled up with zeros to `sizeof(EchoParameter)`.
pub echo_answer :
    {p : PacketData} (client number : ℕ) (payload : List ℕ)
    → IsValid p
    → packet_size ≤ p.capacity
    → length payload ≤ 80
    → number < 2 ^ 32
    → (q : PacketData) × (create_job client (request 0 number payload) true
        ≡ some (some (echoes (padded payload) client number none)))
      × (execute (echoes (padded payload) client number none) (some p) 0
          ≡ some (true, echoes (padded payload) client number (some q), []))
      × (read_info (bytes q) ≡ some (96, code_value req_success, number, padded payload))
      × IsValid q
      × (get_size q ≡ 96)
unfolding execute
echo_answer {p} client number payload v c h k =
    let (q, e, wire, valid, total) =
      answer-read_info (echoes (padded payload) client number none) (padded payload) v c
        (omega (arith, length-padded payload (omega (arith, h)))) k in
    (
      q,
      create_job-echo client number payload h k,
      e,
      wire
          ∙ ap (λ n. some (n + 12, code_value req_success, number, padded payload))
              (length-padded payload (omega (arith, h))),
      valid,
      total ∙ ap (λ n. n + 12) (length-padded payload (omega (arith, h))),
    )

call_create_func-token :
    (view : List ℕ) (n : ℕ)
    → call_create_func 1 view n true
      ≡ some (some (record (construct req_token_job) { param = zero_memory 0 }))
unfolding call_create_func make_job parse
call_create_func-token view n = refl

-- A token request with a number below 2 ^ 32 and any payload that PACKET_SIZE lets through
-- makes a job. With a valid packet of at least PACKET_SIZE bytes from the pool its answer is a
-- valid packet, read as a success with the request's number and the eight bytes of the token
-- that `getTokenFunc` gave.
pub token_answer :
    {p : PacketData} (client number token : ℕ) (payload : List ℕ)
    → IsValid p
    → packet_size ≤ p.capacity
    → length payload + 16 ≤ packet_size
    → number < 2 ^ 32
    → (job : Job) × (q : PacketData) × (create_job client (request 1 number payload) true
        ≡ some (some job))
      × (execute job (some p) token ≡ some (true, record job { packet = some q }, []))
      × (read_info (bytes q) ≡ some (20, code_value req_success, number, le64 token))
      × IsValid q
unfolding execute
token_answer {p} client number token payload v c h k =
    let job : Job = record {
      kind = req_token_job;
      param = zero_memory 0;
      client = client;
      req_no = number;
      packet = none;
    } in
    let (q, e, wire, valid, total) = answer-read_info job (le64 token) v c (omega arith) k in
    (
      job,
      q,
      create_job-tried client (request 1 number payload) true {type = 1} {number = number}
            (omega arith) (omega (arith, h)) refl
            (read32-le32 number (le32 (length payload) ++ payload) k)
          ∙ rw (
              call_create_func-token (drop 16 (image (request 1 number payload)))
                (length (request 1 number payload) - 12)),
      e,
      wire,
      valid,
    )
