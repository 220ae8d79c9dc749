-- ===== src/Connection/Framing.antt =====
-- The messages that `GetReqMessage` cuts off the bytes received.
use socket_server_lib.Prelude.{
  ℕ, ◌≤◌, ◌<◌, ◌≡◌, refl, ap, Option, none, some, List, [], ◌∷◌, ◌++◌, arith, length, take, ltb,
  ◌==◌, if◌then◌else◌, take-append_of_le, length-append, dec_lt, take_of_length_le,
}
use socket_server_lib.PacketData.{packet_size}
use socket_server_lib.SlideBuffer.{IsValid, contents}
use socket_server_lib.SlideBuffer.Fifo.{
  announced, announced_short, peek-announced, get_size-length, view-take,
}
use socket_server_lib.Connection.{Connection, get_req_message}

-- The first message of the bytes `q`, if it is whole.
unfoldable pub front_message : List ℕ → Option (List ℕ)
front_message q =
    if ltb packet_size (announced q)
    then none
    else if announced q == 0
    then none
    else if ltb (length q) (announced q)
    then none
    else some (take (announced q) q)

-- `GetReqMessage` never reads outside the receive buffer, and gives the first message of the bytes
-- that wait there, if it is whole and no longer than PACKET_SIZE.
pub get_req_message-front_message :
    (c : Connection)
    → IsValid c.recv_buffer
    → get_req_message c ≡ some (front_message (contents c.recv_buffer))
unfolding get_req_message front_message
get_req_message-front_message c v =
    ground
      (arith, peek-announced v, get_size-length v, view-take v (announced (contents c.recv_buffer)))

pub front_message-nil : front_message [] ≡ none
unfolding front_message
front_message-nil = refl

pub front_message_short : (q : List ℕ) → length q < 5 → front_message q ≡ none
unfolding front_message
front_message_short q h = ground (arith, announced_short q h)

-- A message as a client writes it: its first four bytes are its length, from 5 to PACKET_SIZE. A message
-- of the bare length field is not one: it is never handed out.
pub record Framed (m : List ℕ) : Type 0 where
  pub header : 5 ≤ length m
  pub small : length m ≤ packet_size
  pub says : announced m ≡ length m

pub announced-append : (q r : List ℕ) → 5 ≤ length q → announced (q ++ r) ≡ announced q
announced-append (a ∷ b ∷ c ∷ d ∷ e ∷ q) r h = refl
announced-append [] r h = absurd (omega arith)
announced-append (a ∷ []) r h = absurd (omega arith)
announced-append (a ∷ b ∷ []) r h = absurd (omega arith)
announced-append (a ∷ b ∷ c ∷ []) r h = absurd (omega arith)
announced-append (a ∷ b ∷ c ∷ d ∷ []) r h = absurd (omega arith)

pub front_message-whole :
    {m : List ℕ} (rest : List ℕ) → Framed m → front_message (m ++ rest) ≡ some m
unfolding front_message
front_message-whole {m} rest f = ground (
  arith,
  announced-append m rest f.header,
  length-append m rest,
  take-append_of_le (length m) m rest (omega arith),
  take_of_length_le (length m) m (omega arith),
)

-- Nothing is cut off before the last byte of a message is there.
pub front_message-partial :
    {m : List ℕ} (q r : List ℕ)
    → Framed m
    → q ++ r ≡ m
    → length q < length m
    → front_message q ≡ none
unfolding front_message
front_message-partial {m} q r f e h = elim (dec_lt (length q) 5) [
  | yes short ↦ ground (arith, announced_short q)
  | no long ↦ ground (arith, announced-append q r, ap announced e)
]
