-- ===== src/Epoll/Outbox.antt =====
-- What `EpollServer::SendMsg` and `EpollServer::ResumeSend` of a client do to the bytes that wait for it,
-- over any sequence of calls, each of which ends before the next one begins. The bytes move under the lock of
-- the context; the switch with its `epoll_ctl` runs after that lock is given back, and Race takes it apart.
pub mod Step
pub mod History
pub mod Race
use socket_server_lib.Prelude.{
  ℕ, zero, suc, ◌+◌, ◌-◌, ◌^◌, ◌≤◌, ◌<◌, ◌≡◌, ◌≢◌, refl, sym, ap, ◌∙◌, subst, Bool, true, false,
  not, Option, none, some, List, [], ◌∷◌, ◌++◌, append_assoc, append-nil, arith, length, take, drop,
  take-append-drop, length-take, ltb, ◌==◌, if◌then◌else◌, ◌>>=◌, lookup_key,
  lookup_key-assign_self, lookup_key-assign_key,
}
use socket_server_lib.PacketData
use socket_server_lib.PacketData.{PacketData, bytes}
use socket_server_lib.SlideBuffer.Fifo.{put}
use socket_server_lib.SlideBuffer.Hold.{
  Holds, enqueue-held, pop-held, view-held, is_empty-held, length-held,
}
use socket_server_lib.Epoll
use socket_server_lib.Epoll.{
  ClientContext, SendStatus, whole_success, partial_success, failed, flush, push_and_flush,
  get_data,
}
use socket_server_lib.Epoll.Server.{
  EpollServer, get_context, update, watch, send_msg, resume_send, after_send, after_resume,
}

-- A call for the client, `SendMsg` with a packet or `ResumeSend`, and the answers of `send` and `epoll_ctl`.
pub data Act : Type 0 where
  call : Option PacketData → Option ℕ → Bool → Act

unfoldable pub act : EpollServer → ℕ → Act → Option (EpollServer × List ℕ)
act server fd (call none sent changed) = resume_send server fd sent changed
act server fd (call (some p) sent changed) =
    send_msg server fd (some p) sent changed >>= λ r. some (r.1, r.2)

-- All that goes out.
pub run : EpollServer → ℕ → List Act → Option (EpollServer × List ℕ)
run server fd [] = some (server, [])
run server fd (a ∷ acts) = act server fd a >>= λ r. run r.0 fd acts >>= λ s. some (s.0, r.1 ++ s.1)

-- The queue `q` of at most `cap` bytes when the packet is in it, if that has room.
abbrev pub offered : ℕ → List ℕ → Option PacketData → List ℕ
offered cap q none = q
offered cap q (some p) = (put cap q (bytes p)).1

-- The bytes of the packets that had room, in order.
pub gained : ℕ → List ℕ → Option PacketData → List ℕ
gained cap q none = []
gained cap q (some p) = if ltb cap (length (bytes p) + length q) then [] else bytes p

abbrev pub sent_of : Option ℕ → ℕ
sent_of none = 0
sent_of (some n) = n

abbrev pub left_over : ℕ → List ℕ → Act → List ℕ
left_over cap q (call packet sent changed) = drop (sent_of sent) (offered cap q packet)

pub taken : ℕ → List ℕ → List Act → List ℕ
taken cap q [] = []
taken cap q (call packet sent changed ∷ acts) =
    gained cap q packet ++ taken cap (left_over cap q (call packet sent changed)) acts

-- A packet in a block of its own, and an answer of `send` that is no more than it was given.
pub record Fits (cap : ℕ) (p : PacketData) : Type 0 where
  pub valid : PacketData.IsValid p
  pub filled : 0 < length p.buf
  pub word : p.size + cap < 2 ^ 32

abbrev pub PacketFits : ℕ → Option PacketData → Type 0
PacketFits cap none = Unit {0}
PacketFits cap (some p) = Fits cap p

abbrev pub AllLegal : ℕ → List ℕ → List Act → Type 0
AllLegal cap q [] = Unit {0}
AllLegal cap q (call packet sent changed ∷ acts) =
    PacketFits cap packet
    × (sent_of sent ≤ length (offered cap q packet))
    × AllLegal cap (left_over cap q (call packet sent changed)) acts

-- The client has an open context whose send buffer holds `q`.
pub record Serves (server : EpollServer) (fd cap : ℕ) (q : List ℕ) : Type 0 where
  pub context : ClientContext
  pub found : get_context server fd ≡ some context
  pub socket : ℕ
  pub is_open : context.socket ≡ some socket
  pub queue : Holds context.send_buffer cap q

unfoldable pub status_of : Option ℕ → List ℕ → SendStatus
status_of none q = failed
status_of (some n) q = if length q == 0 then whole_success else partial_success

pub flush-held :
    {cap : ℕ} {q : List ℕ} (c : ClientContext) (sent : Option ℕ)
    → Holds c.send_buffer cap q
    → sent_of sent ≤ length q
    → (d : ClientContext) × (flush c sent
        ≡ some (status_of sent (drop (sent_of sent) q), d, take (sent_of sent) q))
      × Holds d.send_buffer cap (drop (sent_of sent) q)
      × (d.socket ≡ c.socket)
unfolding flush status_of
flush-held c none h k = (c, refl, h, refl)
flush-held {q = q} c (some n) h k =
    let (b, t, popped, after) = pop-held h n k in
    (
      record c { send_buffer = t },
      ground (arith, popped, is_empty-held after, view-held h n k),
      after,
      refl,
    )

get_data-filled : (block : List ℕ) → 0 < length block → get_data block ≡ some block
get_data-filled [] h = absurd (omega arith)
get_data-filled (b ∷ block) h = refl

pub push_and_flush-held :
    {cap : ℕ} {q : List ℕ} (c : ClientContext) (p : PacketData) (sent : Option ℕ)
    → Holds c.send_buffer cap q
    → Fits cap p
    → sent_of sent ≤ length (offered cap q (some p))
    → (d : ClientContext) × (push_and_flush c p sent
        ≡ some (
          status_of sent (drop (sent_of sent) (offered cap q (some p))),
          d,
          take (sent_of sent) (offered cap q (some p)),
        ))
      × Holds d.send_buffer cap (drop (sent_of sent) (offered cap q (some p)))
      × (d.socket ≡ c.socket)
unfolding push_and_flush
push_and_flush-held c p sent h f k =
    let (b, t, pushed, same, after) =
      enqueue-held h p.buf p.size (omega (arith, f.valid.fits, f.valid.allocated))
        (omega (arith, f.word, length-held h)) in
    let (d, e, later, open_still) = flush-held (record c { send_buffer = t }) sent after k in
    (d, rw (get_data-filled p.buf f.filled, pushed) e, later, open_still)
