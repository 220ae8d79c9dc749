-- ===== src/Connection/Stream/Receive.antt =====
-- One chunk in, and one message out.
use socket_server_lib.Prelude.{
  Bool, ℕ, ◌+◌, ◌^◌, ◌<◌, ◌≡◌, ap, ◌∙◌, none, some, List, ◌++◌, arith, length, take, drop,
  Ends-some, take-length-append, drop-length-append, length-append,
}
use socket_server_lib.SlideBuffer
use socket_server_lib.SlideBuffer.{SlideBuffer, IsValid, contents}
use socket_server_lib.SlideBuffer.Fifo.{put, skip, enqueue-put, pop-skip, length-contents}
use socket_server_lib.Connection.{
  Connection, store_partial_message, get_req_message, pop_recv_buffer,
}
use socket_server_lib.Connection.Framing.{
  Framed, front_message, get_req_message-front_message, front_message-whole,
}
use socket_server_lib.Connection.Stream.{receive, next_message}

-- The connection's receive buffer is in order, has a capacity of `cap` and holds `q`.
pub record Reads (c : Connection) (cap : ℕ) (q : List ℕ) : Type 0 where
  pub valid : IsValid c.recv_buffer
  pub sized : c.recv_buffer.capacity ≡ cap
  pub held : contents c.recv_buffer ≡ q

-- A chunk is put to the queue of what waits, and the answer does not matter.
pub receive-put :
    {c : Connection} {cap : ℕ} {q : List ℕ} (chunk : List ℕ)
    → Reads c cap q
    → length chunk + length q < 2 ^ 32
    → (d : Connection) × (receive c chunk ≡ some d) × Reads d cap (put cap q chunk).1
unfolding receive store_partial_message
receive-put {c} {cap} {q} chunk r h =
    let block = chunk ++ drop (length chunk) c.recv_buf in
    let w = Ends-some (SlideBuffer.enqueue c.recv_buffer (some block) (length chunk)) _ (
      enqueue-put r.valid block (length chunk)
        (omega (arith, length-append chunk (drop (length chunk) c.recv_buf)))
        (omega (arith, length-contents r.valid, ap (length {A = ℕ}) r.held))) in
    (
      record c { recv_buf = block; recv_buffer = w.0.1 },
      rw w.1,
      record {
        valid = w.2.0.valid;
        sized = w.2.0.same_capacity ∙ r.sized;
        held = ap (λ x. x.1) w.2.1 ∙ ap (λ x. x.1) same_queue;
      },
    )
  where
    same_queue :
        put c.recv_buffer.capacity
          (contents c.recv_buffer)
          (take (length chunk) (chunk ++ drop (length chunk) c.recv_buf))
        ≡ put cap q chunk
    same_queue = rw (r.sized, r.held, take-length-append chunk (drop (length chunk) c.recv_buf))

pub get_req_message-whole :
    {c : Connection} {cap : ℕ} {m : List ℕ} (rest : List ℕ)
    → Reads c cap (m ++ rest)
    → Framed m
    → get_req_message c ≡ some (some m)
get_req_message-whole {c} {cap} {m} rest r f =
    get_req_message-front_message c r.valid
    ∙ ap (λ q. some (front_message q)) r.held
    ∙ ap some (front_message-whole rest f)

pub pop_recv_buffer-whole :
    {c : Connection} {cap : ℕ} (m rest : List ℕ)
    → Reads c cap (m ++ rest)
    → (b : Bool) × (s : SlideBuffer) × (pop_recv_buffer c (length m)
        ≡ some (b, record c { recv_buffer = s }))
      × Reads (record c { recv_buffer = s }) cap rest
unfolding pop_recv_buffer skip
pop_recv_buffer-whole {c} {cap} m rest r =
    let w = Ends-some (SlideBuffer.pop c.recv_buffer (length m)) _ (pop-skip r.valid (length m)) in
    (
      w.0.0,
      w.0.1,
      rw w.1,
      record {
        valid = w.2.0.valid;
        sized = w.2.0.same_capacity ∙ r.sized;
        held = ap (λ x. x.1) w.2.1 ∙ ap (λ q. (skip q (length m)).1) r.held ∙ after;
      },
    )
  where
    after : (skip (m ++ rest) (length m)).1 ≡ rest
    after = ground (arith, length-append m rest, drop-length-append m rest)

pub next_message-whole :
    {c : Connection} {cap : ℕ} {m rest : List ℕ}
    → Reads c cap (m ++ rest)
    → Framed m
    → (d : Connection) × (next_message c ≡ some (some (m, d))) × Reads d cap rest
unfolding next_message
next_message-whole {c} {cap} {m} {rest} r f =
    let (b, s, e, after) = pop_recv_buffer-whole m rest r in
    (record c { recv_buffer = s }, rw (get_req_message-whole rest r f, e), after)

pub next_message-none :
    {c : Connection} {cap : ℕ} {q : List ℕ}
    → Reads c cap q
    → front_message q ≡ none
    → next_message c ≡ some none
unfolding next_message
next_message-none {c} {cap} {q} r e =
    rw (get_req_message-front_message c r.valid, ap front_message r.held, e)
