-- ===== src/Epoll/Requests/Whole.antt =====
-- However a stream of messages is cut into reads, its messages reach `OnReceive` whole and in order, while
-- what waits and what a read gives fit in the receive buffer together.
use socket_server_lib.Prelude.{
  ℕ, zero, suc, ◌+◌, ◌≤◌, ◌<◌, ◌≡◌, refl, sym, ap, ◌∙◌, subst, none, some, List, [], ◌∷◌, ◌++◌,
  append_assoc, append-nil, arith, length, length-append, drop-length-append, take-append_of_le,
  take_of_length_le, dec_lt, nil_of_length,
}
use socket_server_lib.SlideBuffer.Fifo.{announced}
use socket_server_lib.SlideBuffer.Hold.{length-held}
use socket_server_lib.Connection.Framing.{Framed, announced-append, front_message}
use socket_server_lib.Connection.Stream.Cut.{AllFramed, Cut, cut}
use socket_server_lib.Connection.Stream.Whole.{AllShort, length_le-joined}
use socket_server_lib.SendBuffer.Queue.{joined}
use socket_server_lib.Epoll.{ClientContext, max_recv_slidebuffer_size}
use socket_server_lib.Epoll.Requests.{
  Loop, fault, running, ended, received, take_requests, store_and_take, front_request, Waits,
  next_request-none, next_request-some, store_and_take-room, store_and_take-no_room,
  take_requests-none, take_requests-some,
}

-- The reads that `ReadThread` starts, one after the other, and the messages of them all.
pub then_serve : List (List ℕ) → Loop → Loop
then_serve ms fault = fault
then_serve ms (running rest) = running (ms ++ rest)
then_serve ms (ended rest c) = ended (ms ++ rest) c

-- The loop of a `DoRecv` gets one round more than the receive buffer has bytes.
pub serve : ClientContext → List (List ℕ) → Loop
serve c [] = ended [] c
serve c (chunk ∷ chunks) = elim (store_and_take (suc max_recv_slidebuffer_size) c (some chunk)) [
  | fault ↦ fault
  | running ms ↦ running ms
  | ended ms d ↦ then_serve ms (serve d chunks)
]

then_serve-nil : (rest : Loop) → then_serve [] rest ≡ rest
unfolding then_serve
then_serve-nil fault = refl
then_serve-nil (running ms) = refl
then_serve-nil (ended ms c) = refl

serve-ended :
    (c : ClientContext) (chunk : List ℕ) (chunks : List (List ℕ)) {d e : ClientContext}
    {ms ns : List (List ℕ)}
    → store_and_take (suc max_recv_slidebuffer_size) c (some chunk) ≡ ended ms d
    → serve d chunks ≡ ended ns e
    → serve c (chunk ∷ chunks) ≡ ended (ms ++ ns) e
unfolding serve then_serve
serve-ended c chunk chunks p q = rw (p, q, serve, then_serve)

front_request-whole : {m : List ℕ} (rest : List ℕ) → Framed m → front_request (m ++ rest) ≡ some m
unfolding front_request
front_request-whole {m} rest f = ground (
  arith,
  f.header,
  f.says,
  announced-append m rest f.header,
  length-append m rest,
  take-append_of_le (length m) m rest (omega arith),
  take_of_length_le (length m) m (omega arith),
)

front_request-nil : front_request [] ≡ none
unfolding front_request
front_request-nil = refl

-- A part of a message is none.
front_request-part :
    {m : List ℕ} (q later rest : List ℕ)
    → Framed m
    → q ++ later ≡ m ++ rest
    → front_message q ≡ none
    → front_request q ≡ none
unfolding front_request front_message
front_request-part {m} q later rest f e n = elim (dec_lt (length q) 5) [
  | yes short ↦ ground arith
  | no long ↦ ground (
    arith,
    f.header,
    f.says,
    f.small,
    announced-append q later,
    announced-append m rest f.header,
    ap announced e,
  )
]

front_request-Cut :
    {longest : ℕ} {ms : List (List ℕ)} {q later : List ℕ} (k : Cut longest ms q later)
    → front_request k.part ≡ none
front_request-Cut {longest} {later = later} k = in_left k.left k.left_framed k.there
  where
    in_left :
        (left : List (List ℕ))
        → AllFramed longest left
        → k.part ++ later ≡ joined left
        → front_request k.part ≡ none
    in_left [] a e =
        rw (nil_of_length k.part (omega (arith, length-append k.part later, ap (length {A = ℕ}) e)))
          front_request-nil
    in_left (m ∷ left) a e = front_request-part k.part later (joined left) a.0 e k.not_whole

take_requests-joined :
    (fuel cap longest : ℕ) (c : ClientContext) (ms : List (List ℕ)) (part : List ℕ)
    → Waits c cap (joined ms ++ part)
    → AllFramed longest ms
    → front_request part ≡ none
    → length ms < fuel
    → (d : ClientContext) × (take_requests fuel c ≡ ended ms d) × Waits d cap part
unfolding received
take_requests-joined zero cap longest c ms part r a e h = absurd (omega arith)
take_requests-joined (suc fuel) cap longest c [] part r a e h =
    (c, take_requests-none fuel c (next_request-none c r e), r)
take_requests-joined (suc fuel) cap longest c (m ∷ ms) part r a e h =
    let q : List ℕ = joined ms ++ part in
    let r' : Waits c cap (m ++ q) = subst (Waits c cap) (append_assoc m (joined ms) part) r in
    let (d, x, s) =
      next_request-some {m = m} c r' (front_request-whole q a.0)
        (omega (arith, length-append m q)) in
    let s' : Waits d cap q = subst (Waits d cap) (drop-length-append m q) s in
    let (d', x', s'') = take_requests-joined fuel cap longest d ms part s' a.2 e (omega arith) in
    (d', take_requests-some fuel c d m x ∙ ap (received m) x', s'')

serve-part :
    (n cap longest : ℕ) (chunks ms : List (List ℕ)) (c : ClientContext) {part : List ℕ}
    → Waits c cap part
    → length part < longest
    → longest + n ≤ suc cap
    → cap ≤ max_recv_slidebuffer_size
    → front_request part ≡ none
    → AllShort n chunks
    → AllFramed longest ms
    → part ++ joined chunks ≡ joined ms
    → (d : ClientContext) × (serve c chunks ≡ ended ms d) × Waits d cap []
unfolding serve
serve-part n cap longest [] [] c {part} r short room small e b a same =
    (c, refl, subst (Waits c cap) (sym (append-nil part) ∙ same) r)
serve-part n cap longest [] (m ∷ ms) c {part} r short room small e b a same =
    absurd (ground (arith, no_message))
  where
    no_message : none ≡ some m
    no_message =
        sym e
        ∙ ap front_request (sym (append-nil part) ∙ same)
        ∙ front_request-whole (joined ms) a.0
serve-part n cap longest (chunk ∷ chunks) ms c {part} r short room small e b a same =
    let (d, x, s) = store_and_take-room c chunk r (omega (arith, b.0)) in
    let k : Cut longest ms (part ++ chunk) (joined chunks) =
      cut ms (part ++ chunk) (joined chunks) (omega arith) a
        (append_assoc part chunk (joined chunks) ∙ same) in
    let none_left = front_request-Cut k in
    let (d', x', s') =
      take_requests-joined (suc max_recv_slidebuffer_size) cap longest d k.whole k.part
        (subst (Waits d cap) (sym k.here) s) k.whole_framed none_left
        (omega (
          arith,
          b.0,
          length_le-joined longest k.whole k.whole_framed,
          ap (length {A = ℕ}) k.here,
          length-append (joined k.whole) k.part,
          length-append part chunk,
        )) in
    let (d'', x'', s'') =
      serve-part n cap longest chunks k.left d' s' k.short room small none_left b.1 k.left_framed
        k.there in
    (
      d'',
      serve-ended c chunk chunks (x (suc max_recv_slidebuffer_size) ∙ x') x''
          ∙ ap (λ z. ended z d'') k.split,
      s'',
    )

-- A client sends messages of 5 to PACKET_SIZE bytes, none longer than `longest`, each with its length in
-- its first four bytes, to a context whose receive buffer is valid, empty and no larger than MAX_RECV_SLIDEBUFFER_SIZE, and every read gives at
-- most `n` bytes, where a part of a message and a read always fit in the buffer together. Then `DoRecv`
-- returns after each read, `OnReceive` gets all messages, whole and in order, and nothing is left over.
pub serve-messages :
    {cap : ℕ} (c : ClientContext) (n longest : ℕ) (chunks ms : List (List ℕ))
    → Waits c cap []
    → 0 < longest
    → longest + n ≤ suc cap
    → cap ≤ max_recv_slidebuffer_size
    → AllShort n chunks
    → AllFramed longest ms
    → joined chunks ≡ joined ms
    → (d : ClientContext) × (serve c chunks ≡ ended ms d) × Waits d cap []
serve-messages {cap} c n longest chunks ms r pos room small b a same =
    serve-part n cap longest chunks ms c {part = []} r (omega arith) room small front_request-nil b
      a same

-- If what a read gives does not fit in the receive buffer beside what waits there, all of its bytes are
-- lost: the server goes on as if the client had not sent them.
pub serve-no_room :
    {cap : ℕ} {q : List ℕ} (c : ClientContext) (chunk : List ℕ) (chunks : List (List ℕ))
    → Waits c cap q
    → length chunk < max_recv_slidebuffer_size
    → cap ≤ max_recv_slidebuffer_size
    → cap < length q + length chunk
    → (d : ClientContext) × (serve c (chunk ∷ chunks) ≡ serve d chunks) × Waits d cap q
unfolding serve
serve-no_room c chunk chunks h few small full =
    let (d, e, after) = store_and_take-no_room c chunk h (omega (arith, length-held h)) full in
    (d, rw (e (suc max_recv_slidebuffer_size), serve) (then_serve-nil (serve d chunks)), after)
