-- ===== src/GameServer/Tests/Datagram.antt =====
-- A datagram to a small server.
use socket_server_lib.Prelude.{
  ℕ, List, ◌++◌, ◌↔◌, ◌⊎◌, ◌≤◌, ◌^◌, length, le32, ◌≡◌, refl, true, none, some, [], ◌∷◌, arith,
}
use socket_server_lib.PacketData.{PacketData, bytes, req_success, code_value}
use socket_server_lib.Connection.{Connection, parsing}
use socket_server_lib.Core.{Core, get_connection}
use socket_server_lib.Job.{header_size, create_udp_job}
use socket_server_lib.Job.Answer.{padded}
use socket_server_lib.GameServer.{udp_task}
use socket_server_lib.Job.Fault.{type_of}
use socket_server_lib.GameServer.Arrival.{Known, work_datagram, work_datagram-none_iff}
use socket_server_lib.GameServer.Datagram.{udp_task-echo, sent_to}
use socket_server_lib.Job.Datagram.{udp_request, udp_echoes}
use socket_server_lib.PacketData.Wire.{read_info}
use socket_server_lib.GameServer.Tests.{slot, unknown, fresh_packet, fresh_packet-IsValid, granted}

-- The client has sent a datagram before.
abbrev known_client : Connection
known_client = record (slot unknown 4 parsing) { udp_addr = record { ip = 7; port = 9 } }

abbrev udp_core : Core
udp_core = record { connections = some known_client ∷ []; udp_tokens = [] }

known_client_is_there : get_connection udp_core 0 ≡ some known_client
unfolding get_connection
known_client_is_there = refl

udp_task-echo_example :
    (q : PacketData) × (create_udp_job 0 (udp_request 5 (72 ∷ 105 ∷ [])) true
      ≡ some (some (udp_echoes (padded (72 ∷ 105 ∷ [])) 0 none)))
    × (udp_task udp_core (udp_echoes (padded (72 ∷ 105 ∷ [])) 0 none) (granted 0)
        ≡ some (req_success, udp_core, (none, some (sent_to (record { ip = 7; port = 9 }) 0 q))))
    × (read_info (bytes q) ≡ some (96, code_value req_success, 0, padded (72 ∷ 105 ∷ [])))
udp_task-echo_example =
    udp_task-echo udp_core 0 5 (72 ∷ 105 ∷ []) (granted 0) {c = known_client} {p = fresh_packet}
      known_client_is_there (λ e. omega (arith, e)) refl fresh_packet-IsValid (omega arith) refl
      refl (omega arith)

-- The client's token is 5.
abbrev token_core : Core
token_core = record { connections = some known_client ∷ []; udp_tokens = (5, 0) ∷ [] }

-- A header with the type -1.
abbrev negative_type : List ℕ
negative_type = le32 20 ++ ((255 ∷ 255 ∷ 255 ∷ 255 ∷ []) ++ (le32 5 ++ (le32 0 ++ le32 0)))

work_datagram-none_iff_example :
    (work_datagram true token_core 5 (record { ip = 7; port = 9 }) negative_type true ≡ none) ↔ (
      (length negative_type ≡ 0)
      ⊎ (Known token_core 5
          × (header_size ≤ length negative_type)
          × (2 ^ 31 ≤ type_of negative_type)))
work_datagram-none_iff_example =
    work_datagram-none_iff token_core 5 (record { ip = 7; port = 9 }) negative_type true true
      (omega arith)
