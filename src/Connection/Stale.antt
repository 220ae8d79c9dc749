-- ===== src/Connection/Stale.antt =====
-- What a slot keeps when its client is gone: `ResetConnection` does not touch the send buffer, nor the
-- mark of a send under way.
use socket_server_lib.Prelude.{
  ℕ, suc, ◌<◌, ◌≡◌, ◌≢◌, refl, Bool, true, none, some, List, [], ◌∷◌, ◌++◌, length,
}
use socket_server_lib.PacketData.{PacketData}
use socket_server_lib.SendBuffer.Ring.{Holds}
use socket_server_lib.SendBuffer.Push.{push-back}
use socket_server_lib.Connection.Send.{queued, send_msg_tcp-busy}
use socket_server_lib.Connection.{
  Connection, init, bind_accept_ex, reset_connection, bind_iocp, close, send_msg_tcp,
}

-- The slot when its client was disconnected and the next one came, on socket `s`, without a failing call.
pub reopened : Connection → ℕ → Connection
unfolding close init bind_accept_ex reset_connection bind_iocp
reopened c s = (bind_iocp (reset_connection (close c) (some s) true) true).1

-- If a send was under way when the client was disconnected, SendMsgTCP to the next client answers
-- true and starts no send, whatever it is given while there is room, and the ring still holds the
-- packets of the client that is gone, in front of the new packet.
pub reopened-stuck :
    (c : Connection) {q : List PacketData} (s : ℕ) (p : PacketData) (started : Bool)
    → Holds c.send_buffer q
    → c.in_flight ≢ 0
    → suc (length q) < c.send_buffer.capacity
    → (d : Connection) × (send_msg_tcp (reopened c s) (some p) started ≡ some (true, d, none))
      × Holds d.send_buffer (q ++ (p ∷ []))
unfolding close init bind_accept_ex reset_connection bind_iocp reopened
reopened-stuck c {q} s p started h busy room = (
  queued (reopened c s) p,
  send_msg_tcp-busy (reopened c s) p started h refl room busy,
  (push-back p h room).1,
)
