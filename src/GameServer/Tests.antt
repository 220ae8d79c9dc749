-- ===== src/GameServer/Tests.antt =====
-- Calls of HandleReq on a small server.
mod Datagram
use socket_server_lib.Prelude.{
  ℕ, ◌≡◌, refl, true, Option, none, some, List, [], ◌∷◌, ◌++◌, map, arith, length, zero_memory,
  length-zero_memory,
}
use socket_server_lib.PacketData.{
  PacketData, bytes, req_success, code_value, IsValid, req_failed, not_finished,
}
use socket_server_lib.SendBuffer.Allocate.{empty_ring, empty_ring-Holds}
use socket_server_lib.Connection.Framing.{front_message_short}
use socket_server_lib.Connection.{
  Connection, JobProcess, parsing, send, set_job_process, get_job_process,
}
use socket_server_lib.Connection.Stream.Receive.{get_req_message-whole}
use socket_server_lib.Job.Create.{create_job-unknown}
use socket_server_lib.Core.{get_connection}
use socket_server_lib.Job.{create_udp_job, Job, protocol}
use socket_server_lib.Job.Answer.{request, padded, echoes}
use socket_server_lib.GameServer.{udp_task, Server, Answers, handle_req, get_process, job_at}
use socket_server_lib.GameServer.Round.{Serving, Grants}
use socket_server_lib.GameServer.Serve.{stream, echo_of, read_all, handle_req-echoes}
use socket_server_lib.GameServer.Stuck.{Waiting, calls, calls-stuck}
use socket_server_lib.GameServer.Datagram.{udp_task-echo}
use socket_server_lib.Job.Datagram.{udp_request, udp_echoes}
use socket_server_lib.Job
use socket_server_lib.Core.Udp.{send_msg_udp}
use socket_server_lib.PacketData.Wire.{read_info}
use socket_server_lib.GameServer.Resume.{Unsent, handle_req-Unsent, handle_req-resumes}

abbrev pub slot : List ℕ → ℕ → JobProcess → Connection
slot bytes n phase = record {
  index = 0;
  socket = some 1;
  connected = true;
  recv_buf = [];
  recv_buffer = record { buf = bytes; size = length bytes; capacity = length bytes };
  send_buffer = empty_ring n;
  in_flight = 0;
  udp_addr = record { ip = 0; port = 0 };
  udp_token = 0;
  job_process = phase;
}

abbrev server : List ℕ → ℕ → JobProcess → Option Job → Server
server bytes n phase job = record {
  core = record { connections = some (slot bytes n phase) ∷ []; udp_tokens = [] };
  jobs = job ∷ [];
  locks = 1;
}

abbrev pub fresh_packet : PacketData
fresh_packet = record { buf = zero_memory 8192; size = 0; capacity = 8192 }

pub fresh_packet-IsValid : IsValid fresh_packet
fresh_packet-IsValid = record {
  allocated = length-zero_memory 8192;
  fits = omega arith;
  word = omega arith;
}

-- Every round is granted what it asks for.
abbrev pub granted : ℕ → Answers
granted n = record {
  block = true;
  packet = some fresh_packet;
  stamp = 0;
  started = true;
  context = true;
  udp_started = true;
}

granted-Grants : (n : ℕ) → Grants (granted n)
granted-Grants n = record {
  fresh = fresh_packet;
  block = refl;
  packet = refl;
  valid = fresh_packet-IsValid;
  wide = omega arith;
  started = refl;
}

-- Two requests, and the first two bytes of a third.
abbrev requests : List (ℕ × List ℕ)
requests = (7, 72 ∷ 105 ∷ []) ∷ (8, []) ∷ []

abbrev part : List ℕ
part = 17 ∷ 0 ∷ []

abbrev bytes_in : List ℕ
bytes_in = request 0 7 (72 ∷ 105 ∷ []) ++ (request 0 8 [] ++ part)

server-Serving :
    (phase : JobProcess) (job : Option Job)
    → Serving (server bytes_in 4 phase job) 0 36 4 (stream requests ++ part) []
unfolding stream get_connection
server-Serving phase job = record {
  conn = slot bytes_in 4 phase;
  found = refl;
  reads = record {
    valid = record { allocated = refl; fits = omega arith; word = omega arith };
    sized = refl;
    held = refl;
  };
  sendable = record {
    ring = empty_ring-Holds 4 (omega arith) (omega arith);
    valid = tt;
    sized = tt;
  };
  on = refl;
  ring_size = refl;
  has_slot = omega arith;
}

requests-phase : get_process (server bytes_in 4 parsing none) 0 ≡ parsing
unfolding get_process get_connection get_job_process
requests-phase = refl

handle_req-echoes_example :
    (t : Server) × (ps : List PacketData) × (handle_req
        (server bytes_in 4 parsing none)
        0
        true
        granted
      ≡ some (req_failed, t))
    × Serving t 0 36 4 part ps
    × (read_all ps ≡ map echo_of requests)
handle_req-echoes_example =
    handle_req-echoes requests granted (server-Serving parsing none) (omega arith) requests-phase
      (front_message_short part (omega arith)) (λ n h. granted-Grants n) (omega arith) (omega arith)

-- The job that waits in the sending phase.
abbrev unsent : Option Job
unsent = some (echoes (padded []) 0 6 (some (record { buf = 1 ∷ 2 ∷ []; size = 2; capacity = 2 })))

unsent-Unsent :
    (n : ℕ)
    → Unsent (server bytes_in n send unsent) 0 (record { buf = 1 ∷ 2 ∷ []; size = 2; capacity = 2 })
unfolding job_at get_process get_connection get_job_process protocol
unsent-Unsent n = record {
  job = echoes (padded []) 0 6 (some (record { buf = 1 ∷ 2 ∷ []; size = 2; capacity = 2 }));
  stored = refl;
  client = refl;
  answer = refl;
  by_tcp = refl;
  phase = refl;
  has_lock = omega arith;
}

handle_req-resumes_example :
    (t : Server) × (ps : List PacketData) × (handle_req
        (server bytes_in 4 send unsent)
        0
        true
        granted
      ≡ some (req_failed, t))
    × Serving t 0 36 4 part (record { buf = 1 ∷ 2 ∷ []; size = 2; capacity = 2 } ∷ ps)
    × (read_all ps ≡ map echo_of requests)
handle_req-resumes_example =
    handle_req-resumes requests granted (server-Serving send unsent) (unsent-Unsent 4)
      (
        record { allocated = refl; fits = omega arith; word = omega arith },
        omega arith,
        omega arith,
      )
      (front_message_short part (omega arith)) (λ n h. granted-Grants n) (omega arith) (omega arith)

is_there : get_connection (server bytes_in 1 send unsent).core 0 ≡ some (slot bytes_in 1 send)
unfolding get_connection
is_there = refl

-- A request of type 3, which no job is for.
abbrev pub unknown : List ℕ
unknown = request 3 5 []

unknown-Waiting :
    Waiting (server unknown 4 parsing none) 0 (slot unknown 4 parsing).recv_buffer unknown
unfolding get_connection get_process get_job_process
unknown-Waiting = record {
  conn = slot unknown 4 parsing;
  has_slot = omega arith;
  has_lock = omega arith;
  phase = refl;
  found = refl;
  buffer = refl;
  front =
      get_req_message-whole {c = slot unknown 4 parsing} {m = unknown} []
        (record {
          valid = record { allocated = refl; fits = omega arith; word = omega arith };
          sized = refl;
          held = refl;
        })
        (record { header = omega arith; small = omega arith; says = refl });
}

calls-stuck_example :
    (t : Server) × (calls (granted ∷ granted ∷ []) (server unknown 4 parsing none) 0
      ≡ some (req_failed ∷ req_failed ∷ [], t))
    × Waiting t 0 (slot unknown 4 parsing).recv_buffer unknown
calls-stuck_example = calls-stuck (granted ∷ granted ∷ []) unknown-Waiting (λ b.
    create_job-unknown 0 unknown b (omega arith) (omega arith) refl refl (omega arith)
      (omega arith))
