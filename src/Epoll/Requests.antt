-- ===== src/Epoll/Requests.antt =====
-- `EpollServer::DoRecv` of EpollServer.cpp once the client is known: the bytes that `read` gave are
-- stored, and the loop takes messages off the receive buffer for as long as they come.
pub mod Hang
pub mod Whole
use socket_server_lib.Prelude.{
  ℕ, zero, suc, ◌+◌, ◌-◌, ◌^◌, ◌≤◌, ◌<◌, ◌≡◌, refl, sym, ap, ◌∙◌, Option, none, some, List, [], ◌∷◌,
  ◌++◌, arith, length, take, drop, ltb, if◌then◌else◌, ◌>>=◌, zero_memory, Bool, true, false,
  length-append, take-length-append, subst,
}
use socket_server_lib.SlideBuffer
use socket_server_lib.SlideBuffer.{SlideBuffer}
use socket_server_lib.SlideBuffer.Fifo.{announced, put}
use socket_server_lib.SlideBuffer.Hold.{
  Holds, get_size-held, peek-held, view-held, pop-held, enqueue-held, length-held, put-room,
  put-no_room,
}
use socket_server_lib.Epoll.{
  ClientContext, max_recv_slidebuffer_size, store_partial_msg, get_req_msg, pop_msg,
}

-- One round of the loop: `GetReqMsg` and, if it gives a message, `PopMsg`.
pub next_request : ClientContext → Option (Option (List ℕ × ClientContext))
next_request c =
    get_req_msg c >>= elim [ none ↦ some none | some m ↦ pop_msg c m >>= λ r. some (some (m, r.1)) ]

-- A fault, a loop that the fuel did not let end, and one that ended, each of the latter with the messages
-- that `OnReceive` was called with.
pub data Loop : Type 0 where
  fault : Loop
  running : List (List ℕ) → Loop
  ended : List (List ℕ) → ClientContext → Loop

pub received : List ℕ → Loop → Loop
received m fault = fault
received m (running ms) = running (m ∷ ms)
received m (ended ms c) = ended (m ∷ ms) c

pub take_requests : ℕ → ClientContext → Loop
take_requests zero c = running []
take_requests (suc fuel) c = elim (next_request c) [
  | none ↦ fault
  | some none ↦ ended [] c
  | some (some (m, d)) ↦ received m (take_requests fuel d)
]

-- `buf` after `read` wrote `chunk` to it.
unfoldable pub read_block : List ℕ → List ℕ
read_block chunk = chunk ++ drop (length chunk) (zero_memory max_recv_slidebuffer_size)

-- `ioSize`, where -1 becomes a `uint32_t`.
unfoldable pub io_size : Option (List ℕ) → ℕ
io_size none = 2 ^ 32 - 1
io_size (some chunk) = length chunk

abbrev pub chunk_of : Option (List ℕ) → List ℕ
chunk_of none = []
chunk_of (some chunk) = chunk

-- The rest of `DoRecv` after `read`, which gave `chunk` or failed.
unfoldable pub store_and_take : ℕ → ClientContext → Option (List ℕ) → Loop
store_and_take fuel c answer =
    elim (store_partial_msg c (read_block (chunk_of answer)) (io_size answer)) [
      | none ↦ fault
      | some (stored, d) ↦ if stored then take_requests fuel d else ended [] d
    ]

-- The message at the front of the bytes `q`, if it is whole.
unfoldable pub front_request : List ℕ → Option (List ℕ)
front_request q =
    if ltb (length q) 5
    then none
    else if ltb (length q) (announced q)
    then none
    else some (take (announced q) q)

-- The receive buffer of the client is in order, has a capacity of `cap` and holds `q`.
abbrev pub Waits : ClientContext → ℕ → List ℕ → Type 0
Waits c cap q = Holds c.recv_buffer cap q

pub get_req_msg-front_request :
    {cap : ℕ} {q : List ℕ} (c : ClientContext)
    → Waits c cap q
    → get_req_msg c ≡ some (front_request q)
unfolding get_req_msg front_request
get_req_msg-front_request {cap} {q} c h =
    ground (arith, get_size-held h, peek-held h, view-held h (announced q))

pub next_request-none :
    {cap : ℕ} {q : List ℕ} (c : ClientContext)
    → Waits c cap q
    → front_request q ≡ none
    → next_request c ≡ some none
unfolding next_request
next_request-none c h e = rw (get_req_msg-front_request c h, e)

-- A message goes to `OnReceive`, and its bytes leave the buffer.
pub next_request-some :
    {cap : ℕ} {q m : List ℕ} (c : ClientContext)
    → Waits c cap q
    → front_request q ≡ some m
    → length m ≤ length q
    → (d : ClientContext) × (next_request c ≡ some (some (m, d))) × Waits d cap (drop (length m) q)
unfolding next_request pop_msg
next_request-some {m = m} c h e k =
    let (b, t, popped, after) = pop-held h (length m) k in
    (record c { recv_buffer = t }, rw (get_req_msg-front_request c h, e, popped), after)

-- What `read` gave is put to the queue of what waits.
pub store-put :
    {cap : ℕ} {q : List ℕ} (c : ClientContext) (chunk : List ℕ)
    → Waits c cap q
    → length chunk + length q < 2 ^ 32
    → (b : Bool) × (d : ClientContext) × (store_partial_msg c (read_block chunk) (length chunk)
        ≡ some (b, d))
      × (b ≡ (put cap q chunk).0)
      × Waits d cap (put cap q chunk).1
unfolding store_partial_msg read_block
store-put {cap} {q} c chunk h small =
    let rest : List ℕ = drop (length chunk) (zero_memory max_recv_slidebuffer_size) in
    let (b, t, stored, same, after) =
      enqueue-held h (chunk ++ rest) (length chunk) (omega (arith, length-append chunk rest))
        small in
    let e : take (length chunk) (chunk ++ rest) ≡ chunk = take-length-append chunk rest in
    (
      b,
      record c { recv_buffer = t },
      rw stored,
      same ∙ ap (λ x. (put cap q x).0) e,
      subst (λ x. Holds t cap (put cap q x).1) e after,
    )

-- With room for the chunk the loop runs on all that waits then.
pub store_and_take-room :
    {cap : ℕ} {q : List ℕ} (c : ClientContext) (chunk : List ℕ)
    → Waits c cap q
    → length q + length chunk ≤ cap
    → (d : ClientContext) × ((fuel : ℕ) → store_and_take fuel c (some chunk) ≡ take_requests fuel d)
      × Waits d cap (q ++ chunk)
unfolding store_and_take io_size
store_and_take-room {cap} {q} c chunk h room =
    let (b, d, stored, same, after) = store-put c chunk h (omega (arith, length-held h)) in
    let e = put-room cap q chunk room in
    let fits : b ≡ true = same ∙ ap (λ x. x.0) e in
    (d, λ fuel. rw (stored, fits, store_and_take), subst (λ x. Holds d.recv_buffer cap x.1) e after)

-- Without room the chunk is gone, and the loop does not start.
pub store_and_take-no_room :
    {cap : ℕ} {q : List ℕ} (c : ClientContext) (chunk : List ℕ)
    → Waits c cap q
    → length chunk + length q < 2 ^ 32
    → cap < length q + length chunk
    → (d : ClientContext) × ((fuel : ℕ) → store_and_take fuel c (some chunk) ≡ ended [] d)
      × Waits d cap q
unfolding store_and_take io_size
store_and_take-no_room {cap} {q} c chunk h few full =
    let (b, d, stored, same, after) = store-put c chunk h few in
    let e = put-no_room cap q chunk full in
    let fails : b ≡ false = same ∙ ap (λ x. x.0) e in
    (
      d,
      λ fuel. rw (stored, fails, store_and_take),
      subst (λ x. Holds d.recv_buffer cap x.1) e after,
    )

pub take_requests-none :
    (fuel : ℕ) (c : ClientContext)
    → next_request c ≡ some none
    → take_requests (suc fuel) c ≡ ended [] c
unfolding take_requests
take_requests-none fuel c e = rw (e, take_requests)

pub take_requests-some :
    (fuel : ℕ) (c d : ClientContext) (m : List ℕ)
    → next_request c ≡ some (some (m, d))
    → take_requests (suc fuel) c ≡ received m (take_requests fuel d)
unfolding take_requests
take_requests-some fuel c d m e = rw (e, take_requests)
