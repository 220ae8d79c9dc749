-- ===== src/Select.antt =====
-- SelectAPI/Windows/SelectServerLib/SelectServerLib/ClientContext.cpp: a client of the select server. Its
-- SlideBuffer.cpp, Job.cpp and PacketData.hpp are those of the epoll server, for Windows.
pub mod Server
pub mod Same
pub mod Left
pub mod Stuck
mod Tests
use socket_server_lib.Prelude.{
  ℕ, zero, suc, ◌+◌, ◌-◌, ◌*◌, ◌^◌, ◌≤◌, ◌<◌, ◌≡◌, Bool, true, false, not, ◌&&◌, Option, none, some,
  List, [], ◌∷◌, ◌++◌, ltb, ◌==◌, if◌then◌else◌, ◌>>=◌, length,
}
use socket_server_lib.PacketData.{PacketData}
use socket_server_lib.SlideBuffer
use socket_server_lib.SlideBuffer.{SlideBuffer}
use socket_server_lib.Epoll.{
  SendStatus, whole_success, partial_success, failed, max_recv_slidebuffer_size,
  max_send_slidebuffer_size, get_data,
}

-- `socket` is `none` for INVALID_SOCKET.
pub record ClientContext : Type 0 where
  pub socket : Option ℕ
  pub recv_buffer : SlideBuffer
  pub send_buffer : SlideBuffer

-- With the socket that it closes.
pub close : ClientContext → ClientContext × Option ℕ
close c = (
  record {
    socket = none;
    recv_buffer = SlideBuffer.clear c.recv_buffer;
    send_buffer = SlideBuffer.clear c.send_buffer;
  },
  c.socket,
)

pub closed_list : Option ℕ → List ℕ
closed_list none = []
closed_list (some s) = s ∷ []

-- `Init`; the answers are those of `ioctlsocket` and `setsockopt`. The last part of the result are the
-- sockets that are closed.
pub init : ClientContext → ℕ → Bool → Bool → Bool × ClientContext × List ℕ
init c s non_blocking no_delay =
    let d : ClientContext = elim c.socket [ none ↦ c | some old ↦ (close c).0 ] in
    let closed = closed_list c.socket in
    if not non_blocking
    then (false, record d { socket = none }, closed ++ (s ∷ []))
    else if not no_delay
    then (false, record d { socket = none }, closed ++ (s ∷ []))
    else (true, record d { socket = some s }, closed)

-- The constructor; `recv_block` and `send_block` are what `new` gives, and `garbage` is what the memory of
-- `m_Socket` held. No answer is looked at.
pub construct :
    Option ℕ → ℕ → Option (List ℕ) → Option (List ℕ) → Bool → Bool → ClientContext × List ℕ
construct garbage s recv_block send_block non_blocking no_delay =
    let c : ClientContext = record {
      socket = garbage;
      recv_buffer = (SlideBuffer.init SlideBuffer.new max_recv_slidebuffer_size recv_block).1;
      send_buffer = (SlideBuffer.init SlideBuffer.new max_send_slidebuffer_size send_block).1;
    } in
    let r = init c s non_blocking no_delay in (r.1, r.2)

pub store_partial_msg : ClientContext → List ℕ → ℕ → Option (Bool × ClientContext)
store_partial_msg c source n = SlideBuffer.enqueue c.recv_buffer (some source) n >>= λ r.
    some (r.0, record c { recv_buffer = r.1 })

-- The message at the front, if one is whole.
pub get_req_msg : ClientContext → Option (Option (List ℕ))
get_req_msg c = SlideBuffer.peek c.recv_buffer >>= λ n.
    if n == 0
    then some none
    else if ltb (SlideBuffer.get_size c.recv_buffer) n
    then some none
    else some (some (SlideBuffer.view c.recv_buffer n))

pub pop_msg : ClientContext → List ℕ → Option (Bool × ClientContext)
pop_msg c sv =
    SlideBuffer.pop c.recv_buffer (length sv) >>= λ r. some (r.0, record c { recv_buffer = r.1 })

-- `send`, which takes `n` of the bytes that wait and answers `n`, or SOCKET_ERROR (`none`), and what is
-- made of it. The last part of the result are the bytes that went out.
pub flush : ClientContext → Option ℕ → Option (SendStatus × ClientContext × List ℕ)
flush c none = some (partial_success, c, [])
flush c (some n) = SlideBuffer.pop c.send_buffer n >>= λ r.
    let d : ClientContext = record c { send_buffer = r.1 } in
    let bytes = SlideBuffer.view c.send_buffer n in
    some
      (if SlideBuffer.is_empty r.1 then (whole_success, d, bytes) else (partial_success, d, bytes))

pub send_msg :
    ClientContext → Option PacketData → Option ℕ → Option (SendStatus × ClientContext × List ℕ)
send_msg c none sent = some (failed, c, [])
send_msg c (some p) sent = SlideBuffer.enqueue c.send_buffer (get_data p.buf) p.size >>= λ r.
    if not r.0 then some (failed, c, []) else flush (record c { send_buffer = r.1 }) sent

pub resume_send : ClientContext → Option ℕ → Option (SendStatus × ClientContext × List ℕ)
resume_send c sent =
    if SlideBuffer.is_empty c.send_buffer then some (whole_success, c, []) else flush c sent
