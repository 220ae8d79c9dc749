-- ===== src/GameServer/Datagram.antt =====
-- A UDP echo request, from the datagram to the answer on its way to the client's address.
use socket_server_lib.Prelude.{ℕ, ◌≤◌, ◌≡◌, ◌≢◌, true, none, some, List, length}
use socket_server_lib.PacketData.{PacketData, IsValid, bytes, packet_size, req_success, code_value}
use socket_server_lib.PacketData.Wire.{read_info}
use socket_server_lib.Connection.{Connection, UdpAddr}
use socket_server_lib.Core.{Core, get_connection}
use socket_server_lib.Core.Udp.{UdpSendContext, send_msg_udp-posted}
use socket_server_lib.Job.{protocol, create_udp_job, echo_parameter_size}
use socket_server_lib.Job.Answer.{padded}
use socket_server_lib.Job.Datagram.{udp_request, udp_echoes, udp_echo_answer}
use socket_server_lib.GameServer.{Answers, udp_task, fetch_token, send_msg_sent}

-- The context of a send to an address.
abbrev pub sent_to : UdpAddr → ℕ → PacketData → UdpSendContext
sent_to addr i q = record { user_index = i; client_addr = addr; wsa = bytes q; packet = q }

-- For a client whose UDP address is known, a UDP echo request with a payload of at most
-- `sizeof(EchoParameter)` bytes makes a job. When a block, a valid packet of at least PACKET_SIZE bytes,
-- a context and a send are granted, the queued call executes the job and starts one send, over UDP, to
-- that address, of a packet that is read as a success with the number 0 and the payload, filled up with
-- zeros; it answers REQ_SUCCESS and changes no connection.
pub udp_task-echo :
    (core : Core) (i token : ℕ) (payload : List ℕ) (a : Answers) {c : Connection} {p : PacketData}
    → get_connection core i ≡ some c
    → c.udp_addr.port ≢ 0
    → a.packet ≡ some p
    → IsValid p
    → packet_size ≤ p.capacity
    → a.context ≡ true
    → a.udp_started ≡ true
    → length payload ≤ echo_parameter_size
    → (q : PacketData) × (create_udp_job i (udp_request token payload) true
        ≡ some (some (udp_echoes (padded payload) i none)))
      × (udp_task core (udp_echoes (padded payload) i none) a
          ≡ some (req_success, core, (none, some (sent_to c.udp_addr i q))))
      × (read_info (bytes q) ≡ some (96, code_value req_success, 0, padded payload))
unfolding udp_task fetch_token send_msg_sent protocol
udp_task-echo core i token payload a {c} {p} found known fresh v wide context started h =
    let (q, made, done, wire, valid) = udp_echo_answer {p = p} i token payload v wide h in
    (q, made, rw (fresh, done, context, started, send_msg_udp-posted core i q found known), wire)
