-- ===== src/Connection/Stream/Whole.antt =====
-- However a stream of messages is cut into chunks, the messages come out whole and in order.
use socket_server_lib.Prelude.{
  ℕ, zero, suc, ◌+◌, ◌^◌, ◌≤◌, ◌<◌, ◌≡◌, refl, sym, ap, ◌∙◌, subst, none, some, List, [], ◌∷◌, ◌++◌,
  append_assoc, append-nil, arith, length, length-append,
}
use socket_server_lib.Connection.{Connection}
use socket_server_lib.Connection.Framing.{front_message, front_message-nil, front_message-whole}
use socket_server_lib.SendBuffer.Queue.{joined}
use socket_server_lib.Connection.Stream.{take_messages, feed}
use socket_server_lib.SlideBuffer.Hold.{put-room}
use socket_server_lib.Connection.Stream.Receive.{
  Reads, receive-put, next_message-whole, next_message-none,
}
use socket_server_lib.Connection.Stream.Cut.{AllFramed, cut}

take_messages-joined :
    (fuel cap longest : ℕ) {c : Connection} (ms : List (List ℕ)) (part : List ℕ)
    → Reads c cap (joined ms ++ part)
    → AllFramed longest ms
    → front_message part ≡ none
    → length ms < fuel
    → (d : Connection) × (take_messages fuel c ≡ some (ms, d)) × Reads d cap part
unfolding take_messages
take_messages-joined zero cap longest ms part r a e h = absurd (omega arith)
take_messages-joined (suc fuel) cap longest {c} [] part r a e h = (c, rw (next_message-none r e), r)
take_messages-joined (suc fuel) cap longest {c} (m ∷ ms) part r a e h =
    let (d, x, s) = next_message-whole {m = m} {rest = joined ms ++ part} (regroup r) a.0 in
    let (d', x', s') =
      take_messages-joined fuel cap longest {c = d} ms part s a.2 e (omega arith) in
    (d', rw (x, x'), s')
  where
    regroup : Reads c cap ((m ++ joined ms) ++ part) → Reads c cap (m ++ (joined ms ++ part))
    regroup = subst (Reads c cap) (append_assoc m (joined ms) part)

-- A whole message has at least one byte.
pub length_le-joined :
    (longest : ℕ) (ms : List (List ℕ)) → AllFramed longest ms → length ms ≤ length (joined ms)
length_le-joined longest [] a = omega arith
length_le-joined longest (m ∷ ms) a =
    omega (arith, a.0.header, length_le-joined longest ms a.2, length-append m (joined ms))

-- Chunks of at most `n` bytes.
abbrev pub AllShort : ℕ → List (List ℕ) → Type 0
AllShort n [] = Unit {0}
AllShort n (b ∷ bs) = (length b ≤ n) × AllShort n bs

feed-part :
    (n cap longest : ℕ) (chunks ms : List (List ℕ)) {c : Connection} {part : List ℕ}
    → Reads c cap part
    → length part < longest
    → longest + n ≤ suc cap
    → cap < 2 ^ 32
    → front_message part ≡ none
    → AllShort n chunks
    → AllFramed longest ms
    → part ++ joined chunks ≡ joined ms
    → (d : Connection) × (feed c chunks ≡ some (ms, d)) × Reads d cap []
unfolding feed
feed-part n cap longest [] [] {c} {part} r short room word e b a same =
    (c, refl, subst (Reads c cap) (sym (append-nil part) ∙ same) r)
feed-part n cap longest [] (m ∷ ms) {c} {part} r short room word e b a same =
    absurd (ground (arith, no_message))
  where
    no_message : none ≡ some m
    no_message =
        sym e
        ∙ ap front_message (sym (append-nil part) ∙ same)
        ∙ front_message-whole (joined ms) a.0
feed-part n cap longest (chunk ∷ chunks) ms {c} {part} r short room word e b a same =
    let (d, x, s) = receive-put chunk r (omega (arith, b.0)) in
    let s' : Reads d cap (part ++ chunk) =
      subst (Reads d cap) (ap (λ z. z.1) (put-room cap part chunk (omega (arith, b.0)))) s in
    let k =
      cut ms (part ++ chunk) (joined chunks) (omega arith) a
        (append_assoc part chunk (joined chunks) ∙ same) in
    let (d', x', s'') =
      take_messages-joined (suc d.recv_buffer.capacity) cap longest k.whole k.part
        (subst (Reads d cap) (sym k.here) s') k.whole_framed k.not_whole
        (omega (
          arith,
          b.0,
          s.sized,
          length_le-joined longest k.whole k.whole_framed,
          ap (length {A = ℕ}) k.here,
          length-append (joined k.whole) k.part,
          length-append part chunk,
        )) in
    let (d'', x'', s3) =
      feed-part n cap longest chunks k.left s'' k.short room word k.not_whole b.1 k.left_framed
        k.there in
    (d'', rw (x, x', x'', k.split), s3)

-- A client sends messages of 5 to PACKET_SIZE bytes, none longer than `longest`, each with its length in
-- its first four bytes, to a connection whose receive buffer is valid and empty, and the bytes arrive in any chunks of at most `n` bytes,
-- where a part of a message and a chunk always fit in the receive buffer together. Then all
-- messages come out, whole and in order, no access leaves a block, and nothing is left over.
pub feed-messages :
    {c : Connection} (n longest : ℕ) (chunks ms : List (List ℕ))
    → Reads c c.recv_buffer.capacity []
    → 0 < longest
    → longest + n ≤ suc c.recv_buffer.capacity
    → AllShort n chunks
    → AllFramed longest ms
    → joined chunks ≡ joined ms
    → (d : Connection) × (feed c chunks ≡ some (ms, d)) × Reads d c.recv_buffer.capacity []
feed-messages {c} n longest chunks ms r pos room b a same =
    feed-part n c.recv_buffer.capacity longest chunks ms r pos room r.valid.word front_message-nil b
      a same
