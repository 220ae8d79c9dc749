-- ===== src/Connection.antt =====
-- IOCP_TCP+UDP/RacingGameServer/RacingGameServer/Connection.cpp: one client's slot, with its receive
-- buffer, its send buffer and the send that the system works on. What a call of the socket library
-- answers is an argument of the operation that makes it. Operations run one at a time, as the
-- spin locks around them make them.
pub mod Framing
pub mod Send
pub mod Link
pub mod Stream
pub mod Stale
mod Tests
use socket_server_lib.Prelude.{
  ℕ, zero, suc, ◌≡◌, refl, Bool, true, false, not, Option, none, some, List, [], ◌∷◌, ltb, ◌==◌,
  if◌then◌else◌, ◌>>=◌, length, replicate, ◌||◌,
}
use socket_server_lib.SlideBuffer
use socket_server_lib.SlideBuffer.{SlideBuffer}
use socket_server_lib.PacketData.{PacketData, packet_size}
use socket_server_lib.SendBuffer
use socket_server_lib.SendBuffer.{SendBuffer}

-- MAX_SOCKBUF, MAX_RECV_SLIDEBUFFER_SIZE, MAX_SEND_SLIDEBUFFER_SIZE and MAX_WSABUFS
abbrev pub max_sockbuf : ℕ
max_sockbuf = 4096

abbrev pub max_recv_slidebuffer_size : ℕ
max_recv_slidebuffer_size = max_sockbuf

abbrev pub max_send_slidebuffer_size : ℕ
max_send_slidebuffer_size = 65536

abbrev pub max_wsabufs : ℕ
max_wsabufs = 16

pub data JobProcess : Type 0 where
  parsing execute send : JobProcess

-- The part of `sockaddr_in` that the server uses.
pub record UdpAddr : Type 0 where
  pub ip : ℕ
  pub port : ℕ

-- `in_flight` is `m_TCPSendOverlapped.m_wsaBuf[0].len`, and `socket` is `none` for INVALID_SOCKET.
pub record Connection : Type 0 where
  pub index : ℕ
  pub socket : Option ℕ
  pub connected : Bool
  pub recv_buf : List ℕ
  pub recv_buffer : SlideBuffer
  pub send_buffer : SendBuffer
  pub in_flight : ℕ
  pub udp_addr : UdpAddr
  pub udp_token : ℕ
  pub job_process : JobProcess

-- The constructor, given what its two allocations got.
pub new : ℕ → Option (List ℕ) → Bool → Option Connection
new index block granted =
    SendBuffer.allocate SendBuffer.new max_send_slidebuffer_size granted >>= λ r. some (record {
      index = index;
      socket = none;
      connected = false;
      recv_buf = replicate max_sockbuf 0;
      recv_buffer = (SlideBuffer.init SlideBuffer.new max_recv_slidebuffer_size block).1;
      send_buffer = r.1;
      in_flight = 0;
      udp_addr = record { ip = 0; port = 0 };
      udp_token = 0;
      job_process = parsing;
    })

unfoldable pub init : Connection → Connection
init c = record c {
  socket = none;
  connected = false;
  recv_buf = replicate max_sockbuf 0;
  recv_buffer = SlideBuffer.clear c.recv_buffer;
  udp_addr = record { ip = 0; port = 0 };
}

-- `fresh` is what WSASocket gives, and `accepting` whether AcceptEx starts.
unfoldable pub bind_accept_ex : Connection → Option ℕ → Bool → Bool × Connection
bind_accept_ex c none accepting = (false, record c { socket = none })
bind_accept_ex c (some s) accepting = (accepting, record c { socket = some s })

unfoldable pub reset_connection : Connection → Option ℕ → Bool → Connection
reset_connection c fresh accepting = (bind_accept_ex (init c) fresh accepting).1

pub bind_iocp : Connection → Bool → Bool × Connection
bind_iocp c bound = if bound then (true, record c { connected = true }) else (false, c)

unfoldable pub bind_recv : Connection → Bool → Bool
bind_recv c started = if not c.connected then false else started

unfoldable pub close : Connection → Connection
close c = record c { connected = false; socket = none; udp_addr = record (c.udp_addr) { port = 0 } }

-- The length in the first entry of the array that `GetWSABUF` filled, which was zeroed before.
abbrev pub first_length : List (List ℕ) → ℕ
first_length [] = 0
first_length (b ∷ bs) = length b

-- `started` says that WSASend did not fail. The buffers are what it was given.
pub send_tcp_io : Connection → Bool → Option (Bool × Connection × List (List ℕ))
send_tcp_io c started = SendBuffer.get_wsabuf c.send_buffer true max_wsabufs >>= λ bufs.
    some (started, record c { in_flight = first_length bufs }, bufs)

-- `SendMsgTCP` on a connected client. The result has the buffers of the send that was started, if one was.
pub push_and_send :
    Connection → PacketData → Bool → Option (Bool × Connection × Option (List (List ℕ)))
push_and_send c p started = SendBuffer.push c.send_buffer (some p) >>= λ r.
    let c' : Connection = record c { send_buffer = r.1 } in
    if not r.0
    then some (false, c', none)
    else if c'.in_flight == 0
    then (send_tcp_io c' started >>= λ t. some (t.0, t.1, some t.2))
    else some (true, c', none)

pub send_msg_tcp :
    Connection → Option PacketData → Bool → Option (Bool × Connection × Option (List (List ℕ)))
send_msg_tcp c none started = some (false, c, none)
send_msg_tcp c (some p) started =
    if not c.connected then some (false, c, none) else push_and_send c p started

pub re_send_tcp : Connection → Bool → Option (Bool × Connection × List (List ℕ))
re_send_tcp c started = send_tcp_io c started

-- The result has the packets that went back to the pool, and the buffers of the next send, if any.
pub tcp_send_completed :
    Connection → ℕ → Bool → Option (Connection × List PacketData × Option (List (List ℕ)))
tcp_send_completed c io_size started = SendBuffer.pop c.send_buffer io_size >>= λ r.
    let c' : Connection = record c { send_buffer = r.0; in_flight = 0 } in
    if SendBuffer.is_empty c'.send_buffer
    then some (c', r.1, none)
    else (send_tcp_io c' started >>= λ t. some (t.1, r.1, some t.2))

-- The first `size` bytes of `m_RecvBuf` go to the receive buffer.
unfoldable pub store_partial_message : Connection → ℕ → Option (Bool × Connection)
store_partial_message c size = SlideBuffer.enqueue c.recv_buffer (some c.recv_buf) size >>= λ r.
    some (r.0, record c { recv_buffer = r.1 })

-- The message at the front of the receive buffer; `none` inside for `false`.
pub get_req_message : Connection → Option (Option (List ℕ))
get_req_message c = SlideBuffer.peek c.recv_buffer >>= λ len.
    if ltb packet_size len
    then some none
    else if len == 0
    then some none
    else if ltb (SlideBuffer.get_size c.recv_buffer) len
    then some none
    else some (some (SlideBuffer.view c.recv_buffer len))

pub pop_recv_buffer : Connection → ℕ → Option (Bool × Connection)
pop_recv_buffer c io_size =
    SlideBuffer.pop c.recv_buffer io_size >>= λ r. some (r.0, record c { recv_buffer = r.1 })

unfoldable pub set_udp_ip : Connection → UdpAddr → Connection
set_udp_ip c addr = record c { udp_addr = addr }

unfoldable pub get_udp_token : Connection → ℕ
get_udp_token c = c.udp_token

unfoldable pub set_udp_token : Connection → ℕ → ℕ × Connection
set_udp_token c token = (c.udp_token, record c { udp_token = token })

unfoldable pub set_job_process : Connection → JobProcess → Connection
set_job_process c e = record c { job_process = e }

pub set_job_process-recv_buffer :
    (c : Connection) (e : JobProcess) → (set_job_process c e).recv_buffer ≡ c.recv_buffer
unfolding set_job_process
set_job_process-recv_buffer c e = refl

pub get_req_message-set_job_process :
    (c : Connection) (e : JobProcess) → get_req_message (set_job_process c e) ≡ get_req_message c
unfolding set_job_process get_req_message
get_req_message-set_job_process c e = refl

unfoldable pub get_job_process : Connection → JobProcess
get_job_process c = c.job_process
