-- ===== src/Connection/Tests.antt =====
-- Connections on small inputs.
use socket_server_lib.Prelude.{
  ◌<◌, ◌⊎◌, ℕ, zero, suc, ◌≡◌, refl, true, none, some, List, [], ◌∷◌, ◌++◌, arith, length,
  replicate,
}
use socket_server_lib.PacketData.{PacketData}
use socket_server_lib.SendBuffer.Ring.{Holds}
use socket_server_lib.Connection.{Connection, send_msg_tcp, parsing}
use socket_server_lib.Connection.Link.{
  Link, Event, send, complete, run, started, AllFit, PacketFits,
}
use socket_server_lib.Connection.Link.Order.{run-in_order}
use socket_server_lib.Connection.Link.Drain.{run-drains}
use socket_server_lib.Connection.Stream.{receive, feed}
use socket_server_lib.Connection.Stream.Receive.{Reads}
use socket_server_lib.Connection.Stream.Cut.{AllFramed}
use socket_server_lib.Connection.Stream.Whole.{feed-messages}
use socket_server_lib.Connection.Stream.Lost.{receive-lost}
use socket_server_lib.Connection.Stale.{reopened, reopened-stuck}

-- A slot with an empty ring of four slots, a receive buffer of `buf`, whose first `size` bytes wait.
abbrev slot : List ℕ → ℕ → ℕ → Connection
slot buf size in_flight = record {
  index = 7;
  socket = some 1;
  connected = true;
  recv_buf = [];
  recv_buffer = record { buf = buf; size = size; capacity = length buf };
  send_buffer = record { slots = replicate 4 none; read = 3; write = 3; capacity = 4 };
  in_flight = in_flight;
  udp_addr = record { ip = 0; port = 0 };
  udp_token = 0;
  job_process = parsing;
}

abbrev fresh : Connection
fresh = slot (replicate 12 0) 0 0

ring-Holds : Holds fresh.send_buffer []
ring-Holds = record {
  array = refl;
  read_in = omega arith;
  word = omega arith;
  room = omega arith;
  write_at = refl;
  held = elim [
    | zero ↦ λ b. refl
    | suc zero ↦ λ b. refl
    | suc (suc zero) ↦ λ b. refl
    | suc (suc (suc zero)) ↦ λ b. refl
    | suc (suc (suc (suc i))) ↦ λ b. absurd (omega arith)
  ];
}

abbrev hello : PacketData
hello = record { buf = 104 ∷ 105 ∷ 0 ∷ []; size = 2; capacity = 3 }

-- The fourth packet finds the ring full.
abbrev history : List Event
history =
    send hello true
    ∷ send hello true
    ∷ send hello true
    ∷ complete 0 true
    ∷ send hello true
    ∷ complete 5 true
    ∷ send hello true
    ∷ []

history-AllFit : AllFit history
history-AllFit =
    let v : PacketFits hello = omega arith in
    ((refl, v), ((refl, v), ((refl, v), (refl, ((refl, v), (refl, ((refl, v), tt)))))))

run-in_order_example :
    (m : Link) × (waiting : List ℕ) × (run (started fresh) history ≡ some m)
    × (m.wire ++ waiting ≡ m.accepted)
    × ((m.wire ≡ m.accepted) ⊎ (0 < length m.outstanding))
run-in_order_example = run-in_order fresh history ring-Holds refl history-AllFit

run-drains_example :
    (m : Link) × (m' : Link) × (run (started fresh) history ≡ some m)
    × (run m (replicate (length m.accepted) (complete 3 true)) ≡ some m')
    × (m'.wire ≡ m.accepted)
run-drains_example = run-drains fresh history 3 ring-Holds refl history-AllFit

-- Two messages, of five and of six bytes, in three chunks.
abbrev first_message : List ℕ
first_message = 5 ∷ 0 ∷ 0 ∷ 0 ∷ 65 ∷ []

abbrev second_message : List ℕ
second_message = 6 ∷ 0 ∷ 0 ∷ 0 ∷ 66 ∷ 67 ∷ []

abbrev chunks : List (List ℕ)
chunks = (5 ∷ 0 ∷ 0 ∷ []) ∷ (0 ∷ 65 ∷ 6 ∷ 0 ∷ 0 ∷ []) ∷ (0 ∷ 66 ∷ 67 ∷ []) ∷ []

messages-AllFramed : AllFramed 6 (first_message ∷ second_message ∷ [])
messages-AllFramed = (
  record { header = omega arith; small = omega arith; says = refl },
  omega arith,
  (record { header = omega arith; small = omega arith; says = refl }, omega arith, tt),
)

fresh-Reads : Reads fresh 12 []
fresh-Reads = record {
  valid = record { allocated = refl; fits = omega arith; word = omega arith };
  sized = refl;
  held = refl;
}

feed-messages_example :
    (d : Connection) × (feed fresh chunks ≡ some (first_message ∷ second_message ∷ [], d))
    × Reads d 12 []
feed-messages_example =
    feed-messages 5 6 chunks (first_message ∷ second_message ∷ []) fresh-Reads (omega arith)
      (omega arith) (omega arith) messages-AllFramed refl

-- Three bytes of a message wait, of the eight that fit.
abbrev waiting_part : Connection
waiting_part = slot (6 ∷ 0 ∷ 0 ∷ 0 ∷ 0 ∷ 0 ∷ 0 ∷ 0 ∷ []) 3 0

receive-lost_example :
    (d : Connection) × (receive waiting_part (0 ∷ 66 ∷ 67 ∷ 5 ∷ 0 ∷ 0 ∷ []) ≡ some d)
    × Reads d 8 (6 ∷ 0 ∷ 0 ∷ [])
receive-lost_example =
    receive-lost (0 ∷ 66 ∷ 67 ∷ 5 ∷ 0 ∷ 0 ∷ [])
      (record {
        valid = record { allocated = refl; fits = omega arith; word = omega arith };
        sized = refl;
        held = refl;
      })
      (omega arith) (omega arith)

abbrev one_message : Connection
one_message = slot (5 ∷ 0 ∷ 0 ∷ 0 ∷ 65 ∷ 6 ∷ 0 ∷ 0 ∷ []) 6 0

reopened-stuck_example :
    (d : Connection) × (send_msg_tcp (reopened (slot (replicate 12 0) 0 2) 9) (some hello) true
      ≡ some (true, d, none))
    × Holds d.send_buffer (hello ∷ [])
reopened-stuck_example =
    reopened-stuck (slot (replicate 12 0) 0 2) 9 hello true ring-Holds (omega arith) (omega arith)
