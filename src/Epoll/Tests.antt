-- ===== src/Epoll/Tests.antt =====
-- The epoll server at concrete clients.
use socket_server_lib.Prelude.{
  ℕ, ◌<◌, take, drop, lookup_key, ◌≡◌, refl, sym, ◌∙◌, true, false, none, some, List, [], ◌∷◌, ◌++◌,
  arith, length, replicate, ◌==◌, if◌then◌else◌, zero_memory, length-zero_memory,
}
use mathlib.Core.Option.{none-ne-some}
use socket_server_lib.PacketData.{PacketData, bytes}
use socket_server_lib.SlideBuffer.{SlideBuffer}
use socket_server_lib.SlideBuffer.Hold.{Holds}
use socket_server_lib.SlideBuffer.Fifo.{put}
use socket_server_lib.Epoll.{ClientContext, whole_success, partial_success}
use socket_server_lib.Epoll.Requests.{take_requests, running, ended, front_request, Waits}
use socket_server_lib.Epoll.Requests.Hang.{
  Hangs, here, later, take_requests-Hangs, take_requests-ends,
}
use socket_server_lib.Epoll.Requests.Whole.{serve, serve-messages}
use socket_server_lib.Epoll.Server.{EpollServer, get_context, update, do_recv}
use socket_server_lib.Epoll.Outbox.{AllLegal, Act, call, run, taken, Serves, Fits}
use socket_server_lib.Epoll.Outbox.History.{run-taken}
use socket_server_lib.Epoll.Outbox.Race.{
  send_begin, send_end, resume_begin, resume_end, resume-races,
}
use socket_server_lib.Epoll.Failed.{do_recv-failed}
use socket_server_lib.Epoll.Jobs.{EchoJob, GameServer, job_round, on_receive}
use socket_server_lib.Epoll.Jobs.Round.{answer}
use socket_server_lib.Epoll.Jobs.Retry.{Busy, failing_rounds, copies, retry-copies}
use socket_server_lib.Epoll.Jobs.Echo.{request, on_receive-echo}

abbrev empty_buffer : SlideBuffer
empty_buffer = record { buf = replicate 128 0; size = 0; capacity = 128 }

empty-Holds : Holds empty_buffer 128 []
empty-Holds = record { valid = omega arith; sized = refl; held = refl }

abbrev client : ClientContext
client = record {
  socket = some 5;
  recv_buffer = empty_buffer;
  send_buffer = empty_buffer;
  out = false;
}

-- Five bytes of which the first four are zero, and the first five of a message of six.
abbrev zeros : List ℕ
zeros = 0 ∷ 0 ∷ 0 ∷ 0 ∷ 1 ∷ []

abbrev part : List ℕ
part = 6 ∷ 0 ∷ 0 ∷ 0 ∷ 1 ∷ []

abbrev zeros_client : ClientContext
zeros_client = record client { recv_buffer = record { buf = zeros; size = 5; capacity = 5 } }

abbrev part_client : ClientContext
part_client = record client { recv_buffer = record { buf = part; size = 5; capacity = 5 } }

take_requests-Hangs_example : (ms : List (List ℕ)) × (take_requests 3 zeros_client ≡ running ms)
unfolding front_request
take_requests-Hangs_example =
    take_requests-Hangs zeros_client (here {q = zeros} refl)
      (record { valid = omega arith; sized = refl; held = refl }) 3

no_Hangs : {q : List ℕ} → front_request q ≡ none → ¬ (Hangs q)
no_Hangs e (here f) = absurd (none-ne-some [] (sym e ∙ f))
no_Hangs e (later m f l) = absurd (none-ne-some m (sym e ∙ f))

take_requests-ends_example :
    (ms : List (List ℕ)) × (d : ClientContext) × (take_requests 6 part_client ≡ ended ms d)
unfolding front_request
take_requests-ends_example =
    take_requests-ends 6 part_client (no_Hangs {q = part} refl)
      (record { valid = omega arith; sized = refl; held = refl }) (omega arith)

serve-messages_example :
    (d : ClientContext) × (serve client ((7 ∷ 0 ∷ 0 ∷ []) ∷ (0 ∷ 1 ∷ 2 ∷ 3 ∷ []) ∷ [])
      ≡ ended ((7 ∷ 0 ∷ 0 ∷ 0 ∷ 1 ∷ 2 ∷ 3 ∷ []) ∷ []) d)
    × Waits d 128 []
serve-messages_example =
    serve-messages client 8 8 ((7 ∷ 0 ∷ 0 ∷ []) ∷ (0 ∷ 1 ∷ 2 ∷ 3 ∷ []) ∷ [])
      ((7 ∷ 0 ∷ 0 ∷ 0 ∷ 1 ∷ 2 ∷ 3 ∷ []) ∷ []) empty-Holds (omega arith) (omega arith) (omega arith)
      (omega arith) (omega arith) refl

abbrev server : EpollServer
server = record { clients = (5, client) ∷ []; interest = (5, false) ∷ [] }

serves : Serves server 5 128 []
unfolding get_context lookup_key
serves = record { context = client; found = refl; socket = 5; is_open = refl; queue = empty-Holds }

abbrev packet : PacketData
packet = record { buf = 1 ∷ 2 ∷ 3 ∷ 4 ∷ []; size = 4; capacity = 4 }

packet-Fits : Fits 128 packet
packet-Fits = record { valid = omega arith; filled = omega arith; word = omega arith }

abbrev acts : List Act
acts = call (some packet) (some 1) true ∷ call none (some 2) true ∷ []

acts-AllLegal : AllLegal 128 [] acts
unfolding put
acts-AllLegal = (packet-Fits, omega arith, (tt, omega arith, tt))

run-taken_example :
    (s : EpollServer) × (out : List ℕ) × (rest : List ℕ) × (run server 5 acts ≡ some (s, out))
    × Serves s 5 128 rest
    × (out ++ rest ≡ [] ++ taken 128 [] acts)
run-taken_example = run-taken server 5 acts serves acts-AllLegal

-- One byte waits.
abbrev queued_server : EpollServer
queued_server = record server {
  clients =
      (
        5,
        record client {
          send_buffer = record { buf = 9 ∷ replicate 127 0; size = 1; capacity = 128 };
        },
      )
      ∷ [];
}

queued-Serves : Serves queued_server 5 128 (9 ∷ [])
unfolding get_context lookup_key
queued-Serves = record {
  context = record client {
    send_buffer = record { buf = 9 ∷ replicate 127 0; size = 1; capacity = 128 };
  };
  found = refl;
  socket = 5;
  is_open = refl;
  queue = record { valid = omega arith; sized = refl; held = refl };
}

-- A packet of four bytes, of which one goes out.
resume-races_example :
    (s1 : EpollServer) × (s2 : EpollServer) × (s3 : EpollServer) × (resume_begin queued_server 5
        (some 1)
      ≡ some (some whole_success, s1, 9 ∷ []))
    × (send_begin s1 5 (some packet) (some 1)
        ≡ some (some partial_success, s2, take 1 (bytes packet)))
    × (send_end s2 5 partial_success true ≡ (true, s3))
    × Serves (resume_end s3 5 whole_success true) 5 128 (drop 1 (bytes packet))
    × (0 < length (drop 1 (bytes packet)))
    × (lookup_key (resume_end s3 5 whole_success true).interest 5 ≡ some false)
resume-races_example =
    resume-races {q = 9 ∷ []} queued_server 5 1 packet queued-Serves packet-Fits (omega arith)
      (omega arith)

-- A server whose only job is an echo of two bytes.
abbrev job : EchoJob
job = record { socket = 5; req_no = 7; param = 8 ∷ 9 ∷ [] }

abbrev busy : GameServer
busy = record { server = server; job_queue = job ∷ [] }

busy-Busy : Busy busy job 128 []
busy-Busy = record { serves = serves; only = refl }

retry-copies_example :
    (g g' : GameServer) × (out rest : List ℕ) × (failing_rounds 2 busy
        (some (zero_memory 4096))
        true
      ≡ some (g, []))
    × (g.job_queue ≡ job ∷ [])
    × (job_round g (some (zero_memory 4096)) (some 10) true ≡ some (g', out))
    × (g'.job_queue ≡ [])
    × Serves g'.server 5 128 rest
    × (out ++ rest ≡ [] ++ copies 3 (answer job))
    × (length out ≡ 10)
unfolding copies
retry-copies_example =
    retry-copies busy job (zero_memory 4096) 2 10 true busy-Busy (length-zero_memory 4096)
      (omega arith) (omega arith) (omega arith) (omega arith)

abbrev idle : GameServer
idle = record { server = server; job_queue = [] }

on_receive-echo_example :
    (g g' : GameServer) × (out rest : List ℕ) × (on_receive idle 5
        (request 7 (zero_memory 84))
        (zero_memory 84)
      ≡ some g)
    × (job_round g (some (zero_memory 4096)) (some 50) true ≡ some (g', out))
    × (g'.job_queue ≡ [])
    × Serves g'.server 5 128 rest
    × (out ++ rest ≡ [] ++ request 7 (zero_memory 84))
    × (length out ≡ 50)
on_receive-echo_example =
    on_receive-echo idle 5 7 50 (zero_memory 84) (zero_memory 84) (zero_memory 4096) serves refl
      (omega arith) (length-zero_memory 84) (length-zero_memory 84) (length-zero_memory 4096)
      (omega arith) (omega (arith, length-zero_memory 84)) (omega (arith, length-zero_memory 84))

abbrev waiting_server : EpollServer
waiting_server = record { clients = (5, part_client) ∷ []; interest = (5, false) ∷ [] }

do_recv-failed_example :
    do_recv 4 waiting_server 5 none true
    ≡ (if length part == 0 then some (some ([], update waiting_server 5 part_client)) else none)
unfolding get_context lookup_key
do_recv-failed_example =
    do_recv-failed 4 waiting_server 5 true refl
      (record { valid = omega arith; sized = refl; held = refl }) (omega arith)
