-- ===== src/Connection/Send.antt =====
-- What `SendMsgTCP` and `TCPSendCompleted` do, branch by branch, when the ring holds a queue.
use socket_server_lib.Prelude.{
  ℕ, suc, ◌<◌, ◌≡◌, ◌≢◌, Bool, true, false, none, some, List, [], inr, arith, length, nonzero,
  is_zero, ap, ◌∙◌,
}
use socket_server_lib.PacketData.{PacketData}
use socket_server_lib.SendBuffer
use socket_server_lib.SendBuffer.{SendBuffer}
use socket_server_lib.SendBuffer.Ring.{Holds, pushed, is_empty-Holds}
use socket_server_lib.SendBuffer.Push.{push-back, push-refused}
use socket_server_lib.Connection.{
  Connection, send_tcp_io, push_and_send, send_msg_tcp, tcp_send_completed,
}

-- The connection with one packet more in its ring.
abbrev pub queued : Connection → PacketData → Connection
queued c p = record c { send_buffer = pushed c.send_buffer p }

module _ (c : Connection) (p : PacketData) (started : Bool) where
  pub send_msg_tcp-off :
      c.connected ≡ false → send_msg_tcp c (some p) started ≡ some (false, c, none)
  unfolding send_msg_tcp
  send_msg_tcp-off e = rw e

  send_msg_tcp-on : c.connected ≡ true → send_msg_tcp c (some p) started ≡ push_and_send c p started
  unfolding send_msg_tcp
  send_msg_tcp-on e = rw e

  module _ {q : List PacketData} (h : Holds c.send_buffer q) (on : c.connected ≡ true) where
    pub send_msg_tcp-full :
        suc (length q) ≡ c.send_buffer.capacity
        → send_msg_tcp c (some p) started ≡ some (false, c, none)
    unfolding push_and_send
    send_msg_tcp-full full = send_msg_tcp-on on ∙ rw (push-refused (some p) h (inr full))

    pub send_msg_tcp-busy :
        suc (length q) < c.send_buffer.capacity
        → c.in_flight ≢ 0
        → send_msg_tcp c (some p) started ≡ some (true, queued c p, none)
    unfolding push_and_send
    send_msg_tcp-busy room busy =
        send_msg_tcp-on on ∙ rw ((push-back p h room).0, nonzero c.in_flight busy)

    pub send_msg_tcp-idle :
        {b : Bool} {c' : Connection} {bufs : List (List ℕ)}
        → suc (length q) < c.send_buffer.capacity
        → c.in_flight ≡ 0
        → send_tcp_io (queued c p) started ≡ some (b, c', bufs)
        → send_msg_tcp c (some p) started ≡ some (b, c', some bufs)
    unfolding push_and_send
    send_msg_tcp-idle room idle e =
        send_msg_tcp-on on ∙ rw ((push-back p h room).0, is_zero c.in_flight idle, e)

-- The connection when the bytes that went out have left its ring.
abbrev pub drained : Connection → SendBuffer → Connection
drained c s = record c { send_buffer = s; in_flight = 0 }

module _ (c : Connection) (n : ℕ) {s : SendBuffer} {released q : List PacketData}
    (popped : SendBuffer.pop c.send_buffer n ≡ some (s, released)) (h : Holds s q) where
  pub tcp_send_completed-last :
      q ≡ [] → tcp_send_completed c n true ≡ some (drained c s, released, none)
  unfolding tcp_send_completed
  tcp_send_completed-last e = rw (popped, is_empty-Holds h ∙ is_zero (length q) (ap length e))

  pub tcp_send_completed-next :
      {b : Bool} {c' : Connection} {bufs : List (List ℕ)}
      → 0 < length q
      → send_tcp_io (drained c s) true ≡ some (b, c', bufs)
      → tcp_send_completed c n true ≡ some (c', released, some bufs)
  unfolding tcp_send_completed
  tcp_send_completed-next ne e = rw (popped, is_empty-Holds h ∙ nonzero (length q) (omega arith), e)
