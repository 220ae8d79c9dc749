-- ===== src/Core/Tests.antt =====
-- A core of two clients.
use socket_server_lib.Prelude.{
  ℕ, zero, suc, ◌≡◌, ◌≢◌, ◌↔◌, refl, true, none, some, List, [], ◌∷◌, arith,
}
use socket_server_lib.SlideBuffer
use socket_server_lib.SendBuffer
use socket_server_lib.Connection
use socket_server_lib.Connection.{Connection, UdpAddr, parsing, set_udp_token}
use socket_server_lib.Core.{Core, find, emplace, get_connection, make_token, get_udp_token}
use socket_server_lib.Core.Registry.{Registered, Registered-start, token_of}
use socket_server_lib.Core.History.{
  Call, obtain, renew, datagram, disconnect, run, AllStamped, run-Registered,
}
use socket_server_lib.Core.Tokens.{get_udp_token-Registered}
use socket_server_lib.Core.Dispatch.{dispatch_all}
use socket_server_lib.Core.Shutdown.{
  HasEnded, AllOnes, take_packets, take_all, worker_round, post_end_to_worker_threads,
  post_end-take_all,
}
use socket_server_lib.Core.Negative.{get_udp_token-shared}

abbrev client : ℕ → ℕ → Connection
client index token = record {
  index = index;
  socket = some 1;
  connected = true;
  recv_buf = [];
  recv_buffer = SlideBuffer.new;
  send_buffer = SendBuffer.new;
  in_flight = 0;
  udp_addr = record { ip = 0; port = 0 };
  udp_token = token;
  job_process = parsing;
}

abbrev start : Core
start = record { connections = some (client 0 0) ∷ some (client 1 0) ∷ []; udp_tokens = [] }

start-Registered : Registered start
unfolding find token_of get_connection
start-Registered = Registered-start zeros (λ t. refl)
  where
    zeros : (i : ℕ) → token_of start i ≡ 0
    zeros zero = refl
    zeros (suc zero) = refl
    zeros (suc (suc i)) = ground arith

abbrev someone : UdpAddr
someone = record { ip = 7; port = 9 }

abbrev history : List Call
history =
    obtain 0 5
    ∷ obtain 1 5
    ∷ datagram 5 someone
    ∷ renew 1 6
    ∷ disconnect 0 (some 4) true
    ∷ obtain 0 8
    ∷ []

history-AllStamped : AllStamped history
history-AllStamped = omega arith

run-Registered_example : Registered (run start history)
run-Registered_example = run-Registered history start-Registered history-AllStamped

-- Client 0 has the token 5.
abbrev one_token : Core
one_token = record {
  connections = some (client 0 5) ∷ some (client 1 0) ∷ [];
  udp_tokens = (5, 0) ∷ [];
}

one_token-Registered : Registered one_token
unfolding get_udp_token Connection.get_udp_token set_udp_token make_token find emplace
    get_connection
one_token-Registered = get_udp_token-Registered start-Registered 0 5 (omega arith) (omega arith)

client-is_there : get_connection one_token 0 ≡ some (client 0 5)
unfolding get_connection
client-is_there = refl

no_such_token : (i : ℕ) → token_of one_token i ≢ 6
unfolding token_of get_connection
no_such_token zero = omega arith
no_such_token (suc zero) = omega arith
no_such_token (suc (suc i)) = ground arith

start-clients :
    (get_connection start 0 ≡ some (client 0 0)) × (get_connection start 1 ≡ some (client 1 0))
unfolding get_connection
start-clients = (refl, refl)

start-empty : find [] (make_token 0 3000000000) ≡ none
unfolding find
start-empty = refl

get_udp_token-shared_example :
    (first : Core) × (second : Core) × (token : ℕ) × (get_udp_token start 0 3000000000
      ≡ (token, first))
    × (get_udp_token first 1 3000000000 ≡ (token, second))
    × (find second.udp_tokens token ≡ some 0)
get_udp_token-shared_example =
    get_udp_token-shared start 0 1 3000000000 start-clients.0 start-clients.1 (omega arith) refl
      refl start-empty (omega arith)

-- Three threads of which the first takes two packets.
post_end-take_all_example :
    (HasEnded (record { queue = 0; waiting = 1 }) ↔ AllOnes (2 ∷ 1 ∷ []))
    × (take_packets 1 (record { queue = 0; waiting = 1 }) ≡ none)
unfolding take_all take_packets worker_round dispatch_all post_end_to_worker_threads
post_end-take_all_example =
    post_end-take_all 3 (2 ∷ 1 ∷ []) 1 {q = record { queue = 0; waiting = 1 }} refl refl
