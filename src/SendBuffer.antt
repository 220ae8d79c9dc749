-- ===== src/SendBuffer.antt =====
-- IOCP_TCP+UDP/RacingGameServer/RacingGameServer/SendBuffer.cpp: the packets that wait to be sent on
-- a connection, in a ring of pointers that keeps one slot free.
pub mod Queue
pub mod Ring
pub mod Push
pub mod Pop
pub mod Walk
pub mod Gather
pub mod Allocate
mod Tests
use socket_server_lib.Prelude.{
  ℕ, zero, suc, ◌+◌, ◌-◌, ◌%◌, Bool, true, false, ◌||◌, Option, none, some, List, [], ◌∷◌, ◌++◌,
  ltb, leb, ◌==◌, if◌then◌else◌, ◌>>=◌, length, get_elem?, set, replicate, add32,
}
use socket_server_lib.PacketData
use socket_server_lib.PacketData.{PacketData, bytes}

-- MAX_TCP_SEGMENT_SIZE
abbrev pub max_tcp_segment_size : ℕ
max_tcp_segment_size = 1460

-- `slots` is the array at `m_Data`, `[]` for nullptr, and `none` in it is a null pointer. A packet
-- stands in the model where the array has a pointer to it: no other pointer to it is followed
-- while it is queued.
pub record SendBuffer : Type 0 where
  pub slots : List (Option PacketData)
  pub read : ℕ
  pub write : ℕ
  pub capacity : ℕ

pub new : SendBuffer
new = record { slots = []; read = 0; write = 0; capacity = 0 }

-- `(x + 1) % m_Capacity` on `uint32_t`, a fault where the capacity is 0.
abbrev pub next_index : SendBuffer → ℕ → Option ℕ
next_index s x = if s.capacity == 0 then none else some (add32 x 1 % s.capacity)

pub is_empty : SendBuffer → Bool
is_empty s = s.read == s.write

pub is_full : SendBuffer → Option Bool
is_full s = next_index s s.write >>= λ next. some (next == s.read)

-- `m_Data[i] = p`, a fault outside the array.
pub store : SendBuffer → ℕ → Option PacketData → Option SendBuffer
store s i p = if ltb i (length s.slots) then some (record s { slots = set s.slots i p }) else none

pub increment_write_offset : SendBuffer → Option SendBuffer
increment_write_offset s = next_index s s.write >>= λ next. some (record s { write = next })

pub increment_read_offset : SendBuffer → Option SendBuffer
increment_read_offset s = next_index s s.read >>= λ next. some (record s { read = next })

store_packet : SendBuffer → Option PacketData → Option (Bool × SendBuffer)
store_packet s none = some (false, s)
store_packet s (some p) =
    store s s.write (some p) >>= λ t. increment_write_offset t >>= λ u. some (true, u)

pub push : SendBuffer → Option PacketData → Option (Bool × SendBuffer)
unfolding store_packet
push s p = is_full s >>= λ full. if full then some (false, s) else store_packet s p

-- The loop of `Pop`, with the packets that it hands back to the packet pool, oldest first. It ends
-- where the slot at the read offset is null, with bytes left over that belong to no packet.
pub pop_loop : ℕ → SendBuffer → ℕ → Option (SendBuffer × List PacketData)
pop_loop zero s remaining = none
pop_loop (suc fuel) s remaining =
    let release = λ (p : PacketData).
      (store s s.read none >>= λ t. increment_read_offset t >>= λ u.
      pop_loop fuel u (remaining - p.size) >>= λ r. some (r.0, p ∷ r.1)) in
    let shrink = λ (p : PacketData).
      (PacketData.pop p remaining >>= λ q. store s s.read (some q) >>= λ t. some (t, [])) in
    if remaining == 0 then some (s, []) else elim (get_elem? s.slots s.read) [
      | none ↦ none
      | some none ↦ some (s, [])
      | some (some p) ↦ if leb p.size remaining then release p else shrink p
    ]

-- Each round frees a slot or is the last, so `capacity` rounds and one more are enough.
pub pop : SendBuffer → ℕ → Option (SendBuffer × List PacketData)
pop s io_size = pop_loop (suc s.capacity) s io_size

-- The loop of `GetWSABUF` from slot `i`, when `count` buffers of `total` bytes are listed.
pub gather : ℕ → SendBuffer → ℕ → ℕ → ℕ → ℕ → Option (List (List ℕ))
gather zero s bufcnt i count total = none
gather (suc fuel) s bufcnt i count total =
    let list = λ (p : PacketData).
      (next_index s i >>= λ j.
      gather fuel s bufcnt j (add32 count 1) (add32 total p.size) >>= λ r. some (bytes p ∷ r)) in
    if i == s.write
    then some []
    else if leb bufcnt count
    then some []
    else elim (get_elem? s.slots i) [
      | none ↦ none
      | some none ↦ none
      | some (some p) ↦ if ltb max_tcp_segment_size (add32 total p.size) then some [] else list p
    ]

-- `given` says that `out_` is no null pointer; the result lists the bytes behind each `WSABUF`.
pub get_wsabuf : SendBuffer → Bool → ℕ → Option (List (List ℕ))
get_wsabuf s given bufcnt =
    if bufcnt == 0 || is_empty s
    then some []
    else if given
    then gather (suc s.capacity) s bufcnt s.read 0 0
    else some []

-- The loop of `Allocate` and of the destructor: the packets that it deletes, oldest first.
pub delete_queued : ℕ → SendBuffer → ℕ → Option (List PacketData)
delete_queued zero s i = none
delete_queued (suc fuel) s i =
    let rest = (next_index s i >>= λ j. delete_queued fuel s j) in
    if i == s.write then some [] else elim (get_elem? s.slots i) [
      | none ↦ none
      | some none ↦ rest
      | some (some p) ↦ rest >>= λ ps. some (p ∷ ps)
    ]

-- `granted` says whether `new(std::nothrow)` gives an array. The old array is not freed. The result
-- has the packets deleted.
pub allocate : SendBuffer → ℕ → Bool → Option (Bool × SendBuffer × List PacketData)
allocate s capacity granted =
    if capacity == 0
    then some (false, s, [])
    else if capacity == s.capacity
    then some (true, s, [])
    else if granted
    then ((if s.capacity == 0 || is_empty s
          then some []
          else delete_queued (suc s.capacity) s s.read)
        >>= λ deleted. some (
          true,
          record { slots = replicate capacity none; read = 0; write = 0; capacity = capacity },
          deleted,
        ))
    else some (false, s, [])
