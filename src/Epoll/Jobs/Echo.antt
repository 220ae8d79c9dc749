-- ===== src/Epoll/Jobs/Echo.antt =====
-- An echo request on its way through the server.
use socket_server_lib.Prelude.{
  ℕ, ◌+◌, ◌-◌, ◌*◌, ◌/◌, ◌%◌, ◌^◌, ◌≤◌, ◌<◌, ◌≡◌, refl, ap, ◌∙◌, true, false, some, List, [], ◌∷◌,
  ◌++◌, append-nil, arith, length, length-append, take, drop, take-append-drop, length-take,
  copy_memory, copy_memory_inside, zero_memory, length-zero_memory, take_of_length_le,
  drop_of_length_le, ltb, ◌==◌,
}
use socket_server_lib.PacketData.Wire.{header}
use socket_server_lib.Epoll.Outbox.{Serves}
use socket_server_lib.Epoll.Jobs.{
  EchoJob, GameServer, packet_size, echo_parameter_size, req_header_size, job_round, create_job,
  call_create_func, parse, construct, is_invalid, on_receive,
}
use socket_server_lib.Epoll.Jobs.Round.{answer}
use socket_server_lib.Epoll.Jobs.Retry.{Busy, job_round-sent}

-- The message of an echo request, as a client writes it.
abbrev pub request : ℕ → List ℕ → List ℕ
request req_no payload = header 96 0 req_no ++ payload

module _ (fd req_no : ℕ) (payload garbage : List ℕ) (number : req_no < 2 ^ 32)
    (size : length payload ≡ echo_parameter_size)
    (memory : length garbage ≡ echo_parameter_size) where
  header-copied :
      copy_memory (zero_memory req_header_size) 0 (request req_no payload) req_header_size
      ≡ some (header 96 0 req_no ++ drop 12 (zero_memory req_header_size))
  header-copied =
      copy_memory_inside (zero_memory req_header_size) 0 (request req_no payload) req_header_size
        (omega (arith, length-zero_memory req_header_size)) (omega arith)

  parse-payload :
      parse (construct fd req_no garbage) payload (length payload)
      ≡ some (true, record { socket = fd; req_no = req_no; param = payload })
  unfolding parse construct
  parse-payload =
      let e = copy_memory_inside garbage 0 payload (length payload) (omega arith) (omega arith) in
      let gone : drop (0 + length payload) garbage ≡ [] =
        drop_of_length_le (0 + length payload) garbage (omega arith) in
      let whole : take (length payload) payload ++ drop (0 + length payload) garbage ≡ payload =
        ap (◌++◌ (take (length payload) payload)) gone
        ∙ append-nil (take (length payload) payload)
        ∙ take_of_length_le (length payload) payload (omega arith) in
      rw (is_echo, e, whole)
    where
      is_echo : (length payload == echo_parameter_size) ≡ true
      is_echo = ground arith

  pub create_job-request :
      create_job fd (request req_no payload) garbage
      ≡ some (some (record { socket = fd; req_no = req_no; param = payload }))
  unfolding create_job call_create_func is_invalid
  create_job-request =
      let far : (ltb (length (request req_no payload)) req_header_size ≡ false) = ground arith in
      rw (far, header-copied, word, rest, parse-payload)
    where
      word :
          req_no % 256
            + 256 * (req_no / 256 % 256)
            + 2 ^ 16 * (req_no / 2 ^ 16 % 256)
            + 2 ^ 24 * (req_no / 2 ^ 24 % 256)
          ≡ req_no
      word = omega arith

      rest : length (request req_no payload) - req_header_size ≡ length payload
      rest = omega arith

-- A server without jobs gets an echo request with 84 bytes of payload from a client for whom `q` waits,
-- the send buffer has room for the answer, and `send` takes `n` bytes when the job runs. Then the job is
-- made and done in that one round, no access leaves a block, and the bytes that have gone out and those
-- that wait are `q` and the request itself, which is the answer: ECHO and REQ_SUCCESS are both 0.
pub on_receive-echo :
    {cap : ℕ} {q : List ℕ} (game : GameServer) (fd req_no n : ℕ) (payload garbage block : List ℕ)
    → Serves game.server fd cap q
    → game.job_queue ≡ []
    → req_no < 2 ^ 32
    → length payload ≡ echo_parameter_size
    → length garbage ≡ echo_parameter_size
    → length block ≡ packet_size
    → cap < 2 ^ 31
    → length q + length (request req_no payload) ≤ cap
    → n ≤ length q + length (request req_no payload)
    → (g g' : GameServer) × (out rest : List ℕ) × (on_receive game fd
          (request req_no payload)
          garbage
        ≡ some g)
      × (job_round g (some block) (some n) true ≡ some (g', out))
      × (g'.job_queue ≡ [])
      × Serves g'.server fd cap rest
      × (out ++ rest ≡ q ++ request req_no payload)
      × (length out ≡ n)
unfolding on_receive
on_receive-echo {cap} {q} game fd req_no n payload garbage block serves idle number size memory full
      word room few =
    let job : EchoJob = record { socket = fd; req_no = req_no; param = payload } in
    let g : GameServer = record game { job_queue = job ∷ [] } in
    let made = create_job-request fd req_no payload garbage number size memory in
    let echoed : answer job ≡ request req_no payload =
      ap (λ k. header k 0 req_no ++ payload) {y = 96} (omega arith) in
    let b : Busy g job cap q = record { serves = serves; only = refl } in
    let all : List ℕ = q ++ answer job in
    let (g', e, done, after) =
      job_round-sent cap job block full (omega arith) word g q n b room
        (omega (arith, length-append q (answer job))) in
    (
      g,
      g',
      take n all,
      drop n all,
      ground (arith, idle, made),
      e,
      done,
      after,
      take-append-drop n all ∙ ap (◌++◌ q) echoed,
      omega (arith, length-take n all, length-append q (answer job)),
    )
