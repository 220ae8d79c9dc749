-- ===== src/Core/Handlers/Tests.antt =====
-- A completion at a concrete client.
use socket_server_lib.Prelude.{ℕ, zero, suc, ◌≡◌, refl, true, none, some, [], ◌∷◌, arith, replicate}
use socket_server_lib.SendBuffer
use socket_server_lib.Connection.{Connection, parsing}
use socket_server_lib.Core.{Core, find, get_connection}
use socket_server_lib.Core.Registry.{Registered, Registered-start, token_of}
use socket_server_lib.Core.Handlers.{Answers, complete}
use socket_server_lib.Core.Handlers.Receive.{received, Outcome, complete-Outcome}

abbrev client : Connection
client = record {
  index = 0;
  socket = some 1;
  connected = true;
  recv_buf = 7 ∷ 8 ∷ 9 ∷ [];
  recv_buffer = record { buf = replicate 8 0; size = 0; capacity = 8 };
  send_buffer = SendBuffer.new;
  in_flight = 0;
  udp_addr = record { ip = 0; port = 0 };
  udp_token = 0;
  job_process = parsing;
}

abbrev start : Core
start = record { connections = some client ∷ []; udp_tokens = [] }

start-Registered : Registered start
unfolding find token_of get_connection
start-Registered = Registered-start zeros (λ t. refl)
  where
    zeros : (i : ℕ) → token_of start i ≡ 0
    zeros zero = refl
    zeros (suc i) = ground arith

abbrev answers : Answers
answers = record {
  bound = true;
  started = true;
  fresh = none;
  accepting = true;
  token = 0;
  addr = record { ip = 0; port = 0 };
}

complete-Outcome_example :
    (s : Core) × (d : Connection) × (complete start 0 true (received 0 2) (λ k. answers) ≡ some s)
    × Registered s
    × (get_connection s 0 ≡ some d)
    × Outcome client d 2 true
unfolding get_connection
complete-Outcome_example =
    complete-Outcome start 0 1 true (λ k. answers) {c = client} start-Registered refl refl
      (omega arith) (omega arith) (omega arith)
