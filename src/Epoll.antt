-- ===== src/Epoll.antt =====
-- Epoll/LT/EpollServerLib/EpollServerLib/ClientContext.cpp: a client of the epoll server, with a slide
-- buffer for each direction. Its SlideBuffer.cpp is that of the other servers, whose copies to the front
-- of the block are `memcpy` here. What a system call answers is an argument.
pub mod Requests
pub mod Server
pub mod Outbox
pub mod Failed
pub mod Events
pub mod Jobs
mod Tests
use socket_server_lib.Prelude.{
  ℕ, zero, suc, ◌+◌, ◌-◌, ◌*◌, ◌^◌, ◌≤◌, ◌<◌, ◌≡◌, Bool, true, false, not, ◌&&◌, Option, none, some,
  List, [], ◌∷◌, ◌++◌, ltb, if◌then◌else◌, ◌>>=◌, length,
}
use socket_server_lib.PacketData.{PacketData}
use socket_server_lib.SlideBuffer
use socket_server_lib.SlideBuffer.{SlideBuffer}

-- MAX_RECV_SLIDEBUFFER_SIZE and MAX_SEND_SLIDEBUFFER_SIZE
abbrev pub max_recv_slidebuffer_size : ℕ
max_recv_slidebuffer_size = 1024

abbrev pub max_send_slidebuffer_size : ℕ
max_send_slidebuffer_size = 1024 * 32

pub data SendStatus : Type 0 where
  whole_success partial_success failed : SendStatus

-- `socket` is `none` for a negative descriptor, and `out` says whether the events in `ep_ev` have EPOLLOUT.
pub record ClientContext : Type 0 where
  pub socket : Option ℕ
  pub recv_buffer : SlideBuffer
  pub send_buffer : SlideBuffer
  pub out : Bool

-- The constructor leaves `m_Socket` as it found the memory.
pub new : Option ℕ → ClientContext
new garbage = record {
  socket = garbage;
  recv_buffer = SlideBuffer.new;
  send_buffer = SlideBuffer.new;
  out = false;
}

-- With the descriptor that it closes.
pub close : ClientContext → ClientContext × Option ℕ
close c = (record c { socket = none }, c.socket)

-- What `Init` asks for: whether the two calls of `fcntl` and that of `setsockopt` do not fail, and the
-- blocks that `new` gives.
pub record Grants : Type 0 where
  pub flags : Bool
  pub non_blocking : Bool
  pub no_delay : Bool
  pub recv_block : Option (List ℕ)
  pub send_block : Option (List ℕ)

pub init_buffers : ClientContext → Grants → Bool × ClientContext
init_buffers c g =
    let r = SlideBuffer.init c.recv_buffer max_recv_slidebuffer_size g.recv_block in
    if not r.0
    then (false, record c { recv_buffer = r.1 })
    else (let s = SlideBuffer.init c.send_buffer max_send_slidebuffer_size g.send_block in
        (s.0, record c { recv_buffer = r.1; send_buffer = s.1 }))

-- The last part of the result is the descriptor that `Close` closes.
pub init : ClientContext → Option ℕ → Grants → Bool × ClientContext × Option ℕ
init c none g = (false, c, none)
init c (some fd) g =
    let closed = (close c).1 in
    let d : ClientContext = record c { socket = some fd; out = false } in
    if not g.flags
    then (false, d, closed)
    else if not g.non_blocking
    then (false, d, closed)
    else if not g.no_delay
    then (false, d, closed)
    else (let r = init_buffers d g in (r.0, r.1, closed))

pub store_partial_msg : ClientContext → List ℕ → ℕ → Option (Bool × ClientContext)
store_partial_msg c source n = SlideBuffer.enqueue c.recv_buffer (some source) n >>= λ r.
    some (r.0, record c { recv_buffer = r.1 })

-- The message at the front, if one is whole.
pub get_req_msg : ClientContext → Option (Option (List ℕ))
get_req_msg c =
    if ltb (SlideBuffer.get_size c.recv_buffer) 5
    then some none
    else (SlideBuffer.peek c.recv_buffer >>= λ n.
        if ltb (SlideBuffer.get_size c.recv_buffer) n
        then some none
        else some (some (SlideBuffer.view c.recv_buffer n)))

pub pop_msg : ClientContext → List ℕ → Option (Bool × ClientContext)
pop_msg c sv =
    SlideBuffer.pop c.recv_buffer (length sv) >>= λ r. some (r.0, record c { recv_buffer = r.1 })

-- `send`, which takes `n` of the bytes that wait and answers `n`, or -1 (`none`), and what is made of it.
-- The last part of the result are the bytes that went out.
unfoldable pub flush : ClientContext → Option ℕ → Option (SendStatus × ClientContext × List ℕ)
flush c none = some (failed, c, [])
flush c (some n) = SlideBuffer.pop c.send_buffer n >>= λ r.
    let d : ClientContext = record c { send_buffer = r.1 } in
    let bytes = SlideBuffer.view c.send_buffer n in
    some
      (if SlideBuffer.is_empty r.1 then (whole_success, d, bytes) else (partial_success, d, bytes))

-- `GetData`, where a block has at least one byte.
abbrev pub get_data : List ℕ → Option (List ℕ)
get_data [] = none
get_data (b ∷ block) = some (b ∷ block)

-- The answer of `Enqueue` is not looked at.
unfoldable pub push_and_flush :
    ClientContext → PacketData → Option ℕ → Option (SendStatus × ClientContext × List ℕ)
push_and_flush c p sent = SlideBuffer.enqueue c.send_buffer (get_data p.buf) p.size >>= λ r.
    flush (record c { send_buffer = r.1 }) sent

unfoldable pub send_msg :
    ClientContext → Option PacketData → Option ℕ → Option (SendStatus × ClientContext × List ℕ)
send_msg c none sent = some (failed, c, [])
send_msg c (some p) sent = elim c.socket [
  | none ↦ some (failed, c, [])
  | some fd ↦ push_and_flush c p sent
]

pub resume_send : ClientContext → Option ℕ → Option (SendStatus × ClientContext × List ℕ)
resume_send c sent = flush c sent
