-- ===== src/Select/Stuck.antt =====
-- A message that makes no job stays at the front of the receive buffer.
use socket_server_lib.Prelude.{
  ℕ, suc, ◌+◌, ◌^◌, ◌≤◌, ◌<◌, ◌≡◌, refl, ◌∙◌, Bool, Option, none, some, List, [], ◌∷◌, ◌++◌, arith,
  length, take, drop, take-append_of_le, length-append, ltb, ◌==◌, if◌then◌else◌, ◌>>=◌,
  lookup_key-assign_self, zero_memory, dec_lt,
}
use socket_server_lib.SlideBuffer.Fifo.{announced, announced_short, put}
use socket_server_lib.SlideBuffer.Hold.{
  Holds, get_size-held, peek-held, view-held, enqueue-held, length-held,
}
use socket_server_lib.Connection.Framing.{announced-append}
use socket_server_lib.Epoll.{max_recv_slidebuffer_size}
use socket_server_lib.Epoll.Requests.{read_block, io_size}
use socket_server_lib.Select.{ClientContext, get_req_msg, store_partial_msg}
use socket_server_lib.Select.Server.{
  SelectServer, get_context, update, create_job, receive_round, on_receive, do_recv,
}

-- The message at the front of the bytes `q`, if it is whole.
unfoldable pub front_message : List ℕ → Option (List ℕ)
front_message q =
    if announced q == 0
    then none
    else if ltb (length q) (announced q)
    then none
    else some (take (announced q) q)

get_req_msg-front_message :
    {cap : ℕ} {q : List ℕ} (c : ClientContext)
    → Holds c.recv_buffer cap q
    → get_req_msg c ≡ some (front_message q)
unfolding get_req_msg front_message
get_req_msg-front_message {cap} {q} c h =
    ground (arith, get_size-held h, peek-held h, view-held h (announced q))

-- Bytes behind a whole message do not change it.
front_message-append :
    (q chunk sv : List ℕ) → front_message q ≡ some sv → front_message (q ++ chunk) ≡ some sv
unfolding front_message
front_message-append q chunk sv e = elim (dec_lt (length q) 5) [
  | yes short ↦ absurd (ground (arith, announced_short q short))
  | no long ↦ ground (
    arith,
    announced-append q chunk,
    length-append q chunk,
    take-append_of_le (announced q) q chunk,
  )
]

front_message-put :
    (cap : ℕ) (q chunk sv : List ℕ)
    → front_message q ≡ some sv
    → front_message (put cap q chunk).1 ≡ some sv
unfolding put
front_message-put cap q chunk sv e = ground (arith, front_message-append q chunk sv)

-- The client has a context whose receive buffer begins with the whole message `sv`.
pub record Blocked (server : SelectServer) (s cap : ℕ) (sv : List ℕ) : Type 0 where
  pub context : ClientContext
  pub found : get_context server s ≡ some context
  pub waiting : List ℕ
  pub queue : Holds context.recv_buffer cap waiting
  pub front : front_message waiting ≡ some sv

-- The loop ends in its first round.
on_receive-Blocked :
    (fuel : ℕ) (server : SelectServer) (s : ℕ) (garbage : List ℕ) {cap : ℕ} {sv : List ℕ}
    → Blocked server s cap sv
    → create_job s sv garbage ≡ some none
    → on_receive (suc fuel) server s garbage ≡ some (some server)
unfolding on_receive receive_round
on_receive-Blocked fuel server s garbage b e =
    let m = get_req_msg-front_message b.context b.queue in ground (arith, b.found, m, b.front, e)

store-Blocked :
    (server : SelectServer) (s : ℕ) (chunk : List ℕ) {cap : ℕ} {sv : List ℕ}
    (b : Blocked server s cap sv)
    → length chunk + cap < 2 ^ 32
    → (stored : Bool) × (d : ClientContext) × (store_partial_msg b.context
          (read_block chunk)
          (length chunk)
        ≡ some (stored, d))
      × Blocked (update server s d) s cap sv
unfolding store_partial_msg read_block get_context
store-Blocked server s chunk {cap} {sv} b small =
    let rest : List ℕ = drop (length chunk) (zero_memory max_recv_slidebuffer_size) in
    let (stored, t, e, same, after) =
      enqueue-held b.queue (chunk ++ rest) (length chunk) (omega (arith, length-append chunk rest))
        (omega (arith, length-held b.queue)) in
    let d : ClientContext = record b.context { recv_buffer = t } in
    (
      stored,
      d,
      rw e,
      record {
        context = d;
        found = lookup_key-assign_self server.clients s d;
        waiting = (put cap b.waiting (take (length chunk) (chunk ++ rest))).1;
        queue = after;
        front = front_message-put cap b.waiting (take (length chunk) (chunk ++ rest)) sv b.front;
      },
    )

-- Receives of the chunks, one after the other.
pub recv_all : ℕ → SelectServer → ℕ → List (List ℕ) → List ℕ → Option (Option SelectServer)
recv_all fuel server s [] garbage = some (some server)
recv_all fuel server s (chunk ∷ chunks) garbage =
    do_recv fuel server s (some chunk) garbage
    >>= elim [ none ↦ some none | some t ↦ recv_all fuel t s chunks garbage ]

-- Chunks of one to `n` bytes each.
abbrev pub AllGiven : ℕ → List (List ℕ) → Type 0
AllGiven n [] = Unit {0}
AllGiven n (chunk ∷ chunks) = (0 < length chunk) × (length chunk ≤ n) × AllGiven n chunks

do_recv-Blocked :
    (fuel : ℕ) (server : SelectServer) (s : ℕ) (chunk garbage : List ℕ) {cap : ℕ} {sv : List ℕ}
    → Blocked server s cap sv
    → create_job s sv garbage ≡ some none
    → 0 < length chunk
    → length chunk + cap < 2 ^ 32
    → (t : SelectServer) × (do_recv (suc fuel) server s (some chunk) garbage ≡ some (some t))
      × Blocked t s cap sv
      × (t.jobs ≡ server.jobs)
unfolding do_recv io_size
do_recv-Blocked fuel server s [] garbage b e pos small = absurd (omega arith)
do_recv-Blocked fuel server s (x ∷ chunk) garbage b e pos small =
    let (stored, d, stores, after) = store-Blocked server s (x ∷ chunk) b small in
    (
      update server s d,
      ground
          (arith, b.found, stores, on_receive-Blocked fuel (update server s d) s garbage after e),
      after,
      refl,
    )

-- A client whose receive buffer begins with a whole message of which `CreateJob` makes no job, say with a
-- payload of another size than EchoParameter's, can send what it likes in reads of at most `n` bytes:
-- each of them is handled without a fault, no job is ever made of it, and the message stays in front.
pub recv_all-Blocked :
    {cap : ℕ} {sv : List ℕ} (fuel n : ℕ) (server : SelectServer) (s : ℕ) (chunks : List (List ℕ))
    (garbage : List ℕ)
    → Blocked server s cap sv
    → create_job s sv garbage ≡ some none
    → AllGiven n chunks
    → n + cap < 2 ^ 32
    → (t : SelectServer) × (recv_all (suc fuel) server s chunks garbage ≡ some (some t))
      × Blocked t s cap sv
      × (t.jobs ≡ server.jobs)
unfolding recv_all
recv_all-Blocked fuel n server s [] garbage b e a small = (server, refl, b, refl)
recv_all-Blocked fuel n server s (chunk ∷ chunks) garbage b e a small =
    let (t, r, b', j) = do_recv-Blocked fuel server s chunk garbage b e a.0 (omega (arith, a.1)) in
    let (t', r', b'', j') = recv_all-Blocked fuel n t s chunks garbage b' e a.2 small in
    (t', rw (r, r'), b'', j' ∙ j)
