-- ===== src/Core/Udp.antt =====
-- `IOCPCore::SendMsgTCP`, `IOCPCore::SendMsgUDP` and UDPSendContext.cpp: what the sending functions do
-- for the client with an index.
use socket_server_lib.Prelude.{
  ◌≡◌, ◌≢◌, nonzero, ℕ, Bool, true, false, Option, none, some, List, ◌==◌, if◌then◌else◌, ◌>>=◌,
}
use socket_server_lib.PacketData.{PacketData, bytes}
use socket_server_lib.Connection
use socket_server_lib.Connection.{Connection, UdpAddr}
use socket_server_lib.Core.{Core, get_connection, update}

-- The result has the buffers of the send that was started, if one was.
unfoldable pub send_msg_tcp :
    Core → ℕ → Option PacketData → Bool → Option (Bool × Core × Option (List (List ℕ)))
send_msg_tcp core i packet started = elim (get_connection core i) [
  | none ↦ some (false, core, none)
  | some c ↦ Connection.send_msg_tcp c packet started >>= λ r. some (r.0, update core i r.1, r.2)
]

-- The part of `stUDPSendContext` that a send uses. `wsa` are the bytes behind its `WSABUF`.
pub record UdpSendContext : Type 0 where
  pub user_index : ℕ
  pub client_addr : UdpAddr
  pub wsa : List ℕ
  pub packet : PacketData

-- `stUDPSendContext::Init`; `none` for false.
pub init_context : ℕ → UdpAddr → Option PacketData → Option UdpSendContext
init_context i addr none = none
init_context i addr (some p) =
    some (record { user_index = i; client_addr = addr; wsa = bytes p; packet = p })

-- The send, unless the client's address is not known yet.
pub post_context : UdpSendContext → Bool → Bool × Option UdpSendContext
post_context x started =
    if x.client_addr.port == 0
    then (false, none)
    else if started
    then (true, some x)
    else (false, none)

-- `granted` says whether the pool gives a context, and `started` whether WSASendTo does not fail. The
-- result has the context of the send that was started; any other is back in its pool.
pub send_msg_udp : Core → ℕ → Option PacketData → Bool → Bool → Bool × Option UdpSendContext
send_msg_udp core i none granted started = (false, none)
send_msg_udp core i (some p) granted started = elim (get_connection core i) [
  | none ↦ (false, none)
  | some c ↦
      if granted
      then elim (init_context i c.udp_addr (some p)) [
        | none ↦ (false, none)
        | some x ↦ post_context x started
      ]
      else (false, none)
]

-- A client whose address is known is sent the bytes of the packet.
pub send_msg_udp-posted :
    (core : Core) (i : ℕ) (q : PacketData) {c : Connection}
    → get_connection core i ≡ some c
    → c.udp_addr.port ≢ 0
    → send_msg_udp core i (some q) true true ≡ (
      true,
      some (record { user_index = i; client_addr = c.udp_addr; wsa = bytes q; packet = q }),
    )
unfolding send_msg_udp init_context post_context
send_msg_udp-posted core i q {c} found known =
    rw (send_msg_udp, found, nonzero c.udp_addr.port known)

-- `DoUDPSend`: the packet that goes back to the pool when a send is done.
pub do_udp_send : UdpSendContext → PacketData
do_udp_send x = x.packet
