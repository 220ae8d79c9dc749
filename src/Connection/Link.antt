-- ===== src/Connection/Link.antt =====
-- A connection and the system below it, over any sequence of sends and completions.
pub mod Invariant
pub mod Accept
pub mod Complete
pub mod Order
pub mod Drain
pub mod Stuck
use socket_server_lib.Prelude.{
  ℕ, zero, suc, ◌+◌, ◌-◌, ◌≤◌, ◌<◌, ◌≡◌, ◌≢◌, refl, sym, ap, ◌∙◌, subst, Bool, true, false, Option,
  none, some, List, [], ◌∷◌, ◌++◌, append_assoc, append-nil, map, arith, length, take, drop, min,
  length-take, length-append, take-append-drop, take-append_of_le, ◌==◌, if◌then◌else◌, ◌>>=◌,
  nonzero, is_zero, Bool-cases, inl, inr, dec_lt, ℕ_discrete,
}
use socket_server_lib.PacketData.{PacketData, IsValid, bytes, packet_size}
use socket_server_lib.SendBuffer
use socket_server_lib.SendBuffer.{SendBuffer, max_tcp_segment_size}
use socket_server_lib.SendBuffer.Queue.{
  pending, AllValid, AllSized, AllSmall-of_AllSized, AllValid-append, AllSized-append,
  pending-append, joined, joined-take,
}
use socket_server_lib.SendBuffer.Ring.{Holds, is_empty-Holds}
use socket_server_lib.SendBuffer.Push.{push-back}
use socket_server_lib.SendBuffer.Pop.{Popped, pop-Popped}
use socket_server_lib.SendBuffer.Gather.{Batch, Batch-pos, get_wsabuf-Batch}
use socket_server_lib.Connection.Send.{
  queued, drained, send_msg_tcp-off, send_msg_tcp-full, send_msg_tcp-busy, send_msg_tcp-idle,
  tcp_send_completed-last, tcp_send_completed-next,
}
use socket_server_lib.Connection.{
  Connection, send_tcp_io, send_msg_tcp, tcp_send_completed, first_length, max_wsabufs,
}

-- What the system holds for the connection: `outstanding` are the bytes of the send under way,
-- `wire` those that went out, and `accepted` those of the packets that SendMsgTCP took.
pub record Link : Type 0 where
  pub conn : Connection
  pub outstanding : List ℕ
  pub wire : List ℕ
  pub accepted : List ℕ

-- A call of SendMsgTCP, and a completion that the system reports; `begun` says whether the WSASend that
-- the call may make starts.
pub data Event : Type 0 where
  send : PacketData → Bool → Event
  complete : ℕ → Bool → Event

-- What is outstanding after a call that may have tried to start a send.
abbrev pub submitted : List ℕ → Bool → Option (List (List ℕ)) → List ℕ
submitted old begun none = old
submitted old true (some bufs) = joined bufs
submitted old false (some bufs) = old

-- The system completes one to all of the outstanding bytes, `extra` of them beyond the first.
pub completed : ℕ → List ℕ → ℕ
completed extra bytes_out = min (suc extra) (length bytes_out)

-- A send, or a completion if a send is under way. A WSASend that fails takes no bytes along.
unfoldable pub step : Link → Event → Option Link
step l (send p begun) = send_msg_tcp l.conn (some p) begun >>= λ r. some (record l {
  conn = r.1;
  outstanding = submitted l.outstanding begun r.2;
  accepted = if r.0 then l.accepted ++ bytes p else l.accepted;
})
step l (complete extra begun) =
    if length l.outstanding == 0
    then some l
    else (let n : ℕ = completed extra l.outstanding in
        tcp_send_completed l.conn n begun >>= λ r. some (record l {
          conn = r.0;
          outstanding = submitted [] begun r.2;
          wire = l.wire ++ take n l.outstanding;
        }))

pub run : Link → List Event → Option Link
run l [] = some l
run l (e ∷ es) = step l e >>= λ m. run m es

-- A valid packet of 1 to MAX_TCP_SEGMENT_SIZE bytes.
abbrev pub PacketFits : PacketData → Type 0
PacketFits p = IsValid p × (0 < p.size) × (p.size ≤ max_tcp_segment_size)

-- The packet fits, and the WSASend starts.
abbrev pub Fits : Event → Type 0
Fits (send p begun) = (begun ≡ true) × PacketFits p
Fits (complete n begun) = begun ≡ true

abbrev pub AllFit : List Event → Type 0
AllFit [] = Unit {0}
AllFit (e ∷ es) = Fits e × AllFit es

-- A link whose connection has an empty ring and no send under way.
abbrev pub started : Connection → Link
started c = record { conn = c; outstanding = []; wire = []; accepted = [] }
