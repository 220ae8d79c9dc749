-- ===== src/Epoll/Outbox/Race.antt =====
-- EpollServer.cpp, `SendMsg` and `ResumeSend` of one client on two threads: the bytes move under the lock
-- of the context, and the switch with its `epoll_ctl` runs after that lock is given back.
use socket_server_lib.Prelude.{
  ℕ, ◌≤◌, ◌<◌, ◌≡◌, ◌≢◌, refl, sym, ap, ◌∙◌, subst, Bool, true, false, Option, none, some, List, [],
  arith, length, take, drop, ◌>>=◌, lookup_key, lookup_key-assign_self, length-drop,
  drop_of_length_le, take_of_length_le, nonzero,
}
use socket_server_lib.PacketData.{PacketData, bytes}
use socket_server_lib.SlideBuffer.Fifo.{put}
use socket_server_lib.SlideBuffer.Hold.{Holds}
use socket_server_lib.Epoll
use socket_server_lib.Epoll.{
  ClientContext, SendStatus, whole_success, partial_success, push_and_flush,
}
use socket_server_lib.Epoll.Server.{
  EpollServer, get_context, update, watch, after_send, after_resume,
}
use socket_server_lib.Epoll.Outbox.{
  offered, Fits, Serves, status_of, flush-held, push_and_flush-held,
}

-- `SendMsg` up to its switch: the status, and the bytes that went out.
pub send_begin :
    EpollServer
    → ℕ
    → Option PacketData
    → Option ℕ
    → Option (Option SendStatus × EpollServer × List ℕ)
send_begin server fd packet sent = elim (get_context server fd) [
  | none ↦ some (none, server, [])
  | some c ↦ Epoll.send_msg c packet sent >>= λ r. some (some r.0, update server fd r.1, r.2)
]

-- The switch of `SendMsg`, on the context as it is by then.
pub send_end : EpollServer → ℕ → SendStatus → Bool → Bool × EpollServer
send_end server fd status changed = elim (get_context server fd) [
  | none ↦ (false, server)
  | some c ↦ after_send server fd status c changed
]

-- `ResumeSend` up to its switch.
pub resume_begin : EpollServer → ℕ → Option ℕ → Option (Option SendStatus × EpollServer × List ℕ)
resume_begin server fd sent = elim (get_context server fd) [
  | none ↦ some (none, server, [])
  | some c ↦ Epoll.resume_send c sent >>= λ r. some (some r.0, update server fd r.1, r.2)
]

-- The switch of `ResumeSend`, on the context as it is by then.
pub resume_end : EpollServer → ℕ → SendStatus → Bool → EpollServer
resume_end server fd status changed = elim (get_context server fd) [
  | none ↦ server
  | some c ↦ after_resume server fd status c changed
]

updated-Serves :
    {cap : ℕ} {q : List ℕ} (server : EpollServer) (fd : ℕ) (c : ClientContext) (socket : ℕ)
    → c.socket ≡ some socket
    → Holds c.send_buffer cap q
    → Serves (update server fd c) fd cap q
unfolding get_context
updated-Serves server fd c socket e h = record {
  context = c;
  found = lookup_key-assign_self server.clients fd c;
  socket = socket;
  is_open = e;
  queue = h;
}

watched-Serves :
    {cap : ℕ} {q : List ℕ} (server : EpollServer) (fd : ℕ) (out : Bool)
    → Serves server fd cap q
    → Serves (watch server fd out) fd cap q
unfolding get_context
watched-Serves server fd out r = record {
  context = r.context;
  found = r.found;
  socket = r.socket;
  is_open = r.is_open;
  queue = r.queue;
}

-- `ResumeSend` sends all that waits.
resume_begin-whole :
    {cap : ℕ} {q : List ℕ} (server : EpollServer) (fd : ℕ)
    → Serves server fd cap q
    → (s : EpollServer) × (resume_begin server fd (some (length q))
        ≡ some (some whole_success, s, q))
      × Serves s fd cap []
unfolding resume_begin Epoll.resume_send status_of
resume_begin-whole {cap} {q} server fd r =
    let (d, e, after, open_still) = flush-held r.context (some (length q)) r.queue (omega arith) in
    (
      update server fd d,
      rw (resume_begin, r.found, e, nothing, take_of_length_le (length q) q (omega arith)) refl,
      updated-Serves server fd d r.socket (open_still ∙ r.is_open)
          (subst (Holds d.send_buffer cap) nothing after),
    )
  where
    nothing : drop (length q) q ≡ []
    nothing = drop_of_length_le (length q) q (omega arith)

offered-alone :
    (cap : ℕ) (p : PacketData) → length (bytes p) ≤ cap → offered cap [] (some p) ≡ bytes p
unfolding put
offered-alone cap p h = ground (arith, h)

send_msg-open :
    (c : ClientContext) (p : PacketData) (sent : Option ℕ) {socket : ℕ}
    → c.socket ≡ some socket
    → Epoll.send_msg c (some p) sent ≡ push_and_flush c p sent
unfolding Epoll.send_msg
send_msg-open c p sent e = ground (arith, e)

-- `SendMsg` finds nothing waiting, and sends a part of the packet.
send_begin-part :
    {cap : ℕ} (server : EpollServer) (fd n : ℕ) (p : PacketData)
    → Serves server fd cap []
    → Fits cap p
    → length (bytes p) ≤ cap
    → n < length (bytes p)
    → (s : EpollServer) × (send_begin server fd (some p) (some n)
        ≡ some (some partial_success, s, take n (bytes p)))
      × Serves s fd cap (drop n (bytes p))
unfolding send_begin status_of
send_begin-part {cap} server fd n p r f room h =
    let alone = offered-alone cap p room in
    let (d, e, after, open_still) =
      push_and_flush-held r.context p (some n) r.queue f
        (omega (arith, h, ap (length {A = ℕ}) alone)) in
    (
      update server fd d,
      rw (
        send_begin,
        r.found,
        send_msg-open r.context p (some n) r.is_open,
        e,
        alone,
        nonzero (length (drop n (bytes p))) left,
      ),
      updated-Serves server fd d r.socket (open_still ∙ r.is_open)
          (subst (λ x. Holds d.send_buffer cap (drop n x)) alone after),
    )
  where
    left : length (drop n (bytes p)) ≢ 0
    left = omega (arith, h, length-drop n (bytes p))

send_end-armed :
    {cap : ℕ} {q : List ℕ} (server : EpollServer) (fd : ℕ)
    → Serves server fd cap q
    → (s : EpollServer) × (send_end server fd partial_success true ≡ (true, s))
      × Serves s fd cap q
      × (lookup_key s.interest fd ≡ some true)
unfolding send_end after_send
send_end-armed server fd r = (
  watch (update server fd (record (r.context) { out = true })) fd true,
  rw (send_end, r.found) refl,
  watched-Serves (update server fd (record (r.context) { out = true })) fd true
      (updated-Serves server fd (record (r.context) { out = true }) r.socket r.is_open r.queue),
  lookup_key-assign_self server.interest fd true,
)

resume_end-disarmed :
    {cap : ℕ} {q : List ℕ} (server : EpollServer) (fd : ℕ)
    → Serves server fd cap q
    → Serves (resume_end server fd whole_success true) fd cap q
      × (lookup_key (resume_end server fd whole_success true).interest fd ≡ some false)
unfolding resume_end after_resume
resume_end-disarmed {cap} {q} server fd r =
    subst (λ s. Serves s fd cap q × (lookup_key s.interest fd ≡ some false)) (sym same)
      (
        watched-Serves (update server fd (record (r.context) { out = false })) fd false (
            updated-Serves server fd (record (r.context) { out = false }) r.socket r.is_open
              r.queue),
        lookup_key-assign_self server.interest fd false,
      )
  where
    same :
        resume_end server fd whole_success true
        ≡ watch (update server fd (record (r.context) { out = false })) fd false
    same = rw (resume_end, r.found) refl

-- The bytes of `q` wait for a client, and `ResumeSend` sends them all; before its switch runs, another thread's
-- `SendMsg` finds nothing waiting, sends a part of a packet for which the buffer has room, asks epoll for
-- room and answers true. Then the switch of `ResumeSend` runs, and tells epoll not to watch for room:
-- the rest of the packet waits, unwatched, though no call has failed.
pub resume-races :
    {cap : ℕ} {q : List ℕ} (server : EpollServer) (fd n : ℕ) (p : PacketData)
    → Serves server fd cap q
    → Fits cap p
    → length (bytes p) ≤ cap
    → n < length (bytes p)
    → (s1 : EpollServer) × (s2 : EpollServer) × (s3 : EpollServer) × (resume_begin server fd
          (some (length q))
        ≡ some (some whole_success, s1, q))
      × (send_begin s1 fd (some p) (some n) ≡ some (some partial_success, s2, take n (bytes p)))
      × (send_end s2 fd partial_success true ≡ (true, s3))
      × Serves (resume_end s3 fd whole_success true) fd cap (drop n (bytes p))
      × (0 < length (drop n (bytes p)))
      × (lookup_key (resume_end s3 fd whole_success true).interest fd ≡ some false)
resume-races server fd n p r f room h =
    let (s1, e1, r1) = resume_begin-whole server fd r in
    let (s2, e2, r2) = send_begin-part s1 fd n p r1 f room h in
    let (s3, e3, r3, armed) = send_end-armed s2 fd r2 in
    let (r4, disarmed) = resume_end-disarmed s3 fd r3 in
    (s1, s2, s3, e1, e2, e3, r4, omega (arith, h, length-drop n (bytes p)), disarmed)
