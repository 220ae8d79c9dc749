-- ===== src/Select/Same.antt =====
-- The sending functions of the epoll server and of the select server, side by side.
use socket_server_lib.Prelude.{
  ℕ, ◌≡◌, Bool, true, false, Option, none, some, List, [], arith, if◌then◌else◌, ◌>>=◌,
}
use socket_server_lib.PacketData.{PacketData}
use socket_server_lib.SlideBuffer
use socket_server_lib.SlideBuffer.{SlideBuffer}
use socket_server_lib.SlideBuffer.Overflow.{enqueue-refused}
use socket_server_lib.Epoll
use socket_server_lib.Epoll.{SendStatus, whole_success, partial_success, failed, get_data}
use socket_server_lib.Select

-- What a caller sees of a send: the status, the send buffer after it and the bytes that went out.
abbrev pub Seen : Type 0
Seen = SendStatus × SlideBuffer × List ℕ

abbrev pub seen_epoll : Option (SendStatus × Epoll.ClientContext × List ℕ) → Option Seen
seen_epoll m = m >>= λ r. some (r.0, r.1.send_buffer, r.2)

abbrev pub seen_select : Option (SendStatus × Select.ClientContext × List ℕ) → Option Seen
seen_select m = m >>= λ r. some (r.0, r.1.send_buffer, r.2)

-- The part that the two share: `send` on the buffer `s`, and `status` if it fails.
pub attempt : SlideBuffer → Option ℕ → SendStatus → Option Seen
attempt s none status = some (status, s, [])
attempt s (some n) status = SlideBuffer.pop s n >>= λ r.
    some (
      if SlideBuffer.is_empty r.1 then whole_success else partial_success,
      r.1,
      SlideBuffer.view s n,
    )

-- With the same send buffer, and a packet for which `Enqueue` answers `accepted` and leaves the buffer `t`,
-- the two servers' `SendMsg` do the same if the packet is accepted and `send` does not fail. If `send`
-- fails, both keep the packet, and the answer is FAILED on Linux and PARTIAL_SUCCESS on Windows. A packet
-- that is not accepted leaves the buffer as it was: Windows answers FAILED and sends nothing, and Linux
-- goes on with the send of what waits, and answers as if the packet were a part of it.
pub send_msg-send_msg :
    (a : Epoll.ClientContext) (b : Select.ClientContext) (p : PacketData) (fd : ℕ) (sent : Option ℕ)
    (accepted : Bool) {t : SlideBuffer}
    → a.socket ≡ some fd
    → a.send_buffer ≡ b.send_buffer
    → SlideBuffer.enqueue b.send_buffer (get_data p.buf) p.size ≡ some (accepted, t)
    → (seen_epoll (Epoll.send_msg a (some p) sent)
        ≡ attempt (if accepted then t else b.send_buffer) sent failed)
      × (seen_select (Select.send_msg b (some p) sent)
          ≡ (if accepted then attempt t sent partial_success else some (failed, b.send_buffer, [])))
unfolding Epoll.send_msg Epoll.push_and_flush Epoll.flush Select.send_msg Select.flush attempt
send_msg-send_msg a b p fd none true is_open same e = ground (arith, same, e, is_open)
send_msg-send_msg a b p fd none false is_open same e =
    ground (arith, same, e, is_open, enqueue-refused _ _ e)
send_msg-send_msg a b p fd (some n) true is_open same e = ground (arith, same, e, is_open)
send_msg-send_msg a b p fd (some n) false is_open same e =
    ground (arith, same, e, is_open, enqueue-refused _ _ e)
