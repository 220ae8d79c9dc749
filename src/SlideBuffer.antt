-- ===== src/SlideBuffer.antt =====
-- IOCP_TCP+UDP/RacingGameServer/RacingGameServer/SlideBuffer.cpp: the receive buffer, a block of
-- bytes whose first `size` bytes wait to be read. The four other servers keep copies of it.
pub mod Fifo
pub mod Hold
pub mod Overflow
pub mod Trace
mod Tests
use socket_server_lib.Prelude.{
  ℕ, zero, suc, ◌+◌, ◌-◌, ◌^◌, ◌≤◌, ◌<◌, ◌≡◌, Bool, true, false, ◌||◌, Option, none, some, List, [],
  ltb, leb, ◌==◌, if◌then◌else◌, ◌>>=◌, length, take, set, get_or, add32, read32, copy_memory,
  move_down,
}

-- `buf` is the block that `m_pData` points to, and `[]` for nullptr.
pub record SlideBuffer : Type 0 where
  pub buf : List ℕ
  pub size : ℕ
  pub capacity : ℕ

pub new : SlideBuffer
new = record { buf = []; size = 0; capacity = 0 }

pub clear : SlideBuffer → SlideBuffer
clear s = record s { size = 0 }

-- `block` is what `new char[capacity_]` gives: `none` for std::bad_alloc.
pub init : SlideBuffer → ℕ → Option (List ℕ) → Bool × SlideBuffer
init s capacity none = (false, record { buf = []; size = 0; capacity = 0 })
init s capacity (some block) = (true, record { buf = block; size = 0; capacity = capacity })

-- `source` is `none` for nullptr, and else the block that `in_` points to.
unfoldable pub enqueue : SlideBuffer → Option (List ℕ) → ℕ → Option (Bool × SlideBuffer)
enqueue s none n = some (false, s)
enqueue s (some source) n =
    if ltb s.capacity (add32 n s.size)
    then some (false, s)
    else (copy_memory s.buf s.size source n >>= λ b.
        some (true, record s { buf = b; size = add32 s.size n }))

-- The bytes after the first `n` come to the front: what `Dequeue` and `Pop` share.
-- Callers have `n ≤ size`, so the subtraction does not wrap.
pub discard : SlideBuffer → ℕ → Option SlideBuffer
discard s n =
    if leb s.size (length s.buf)
    then some (record s { buf = move_down s.buf 0 n (s.size - n); size = s.size - n })
    else none

-- `out` is the block at `out_`; the results are the count, that block and the buffer.
pub dequeue : SlideBuffer → List ℕ → ℕ → Option (ℕ × List ℕ × SlideBuffer)
dequeue s out max =
    if s.size == 0
    then some (0, out, s)
    else (let n : ℕ = (if ltb max s.size then max else s.size) in
        copy_memory out 0 s.buf n >>= λ o. discard s n >>= λ t. some (n, o, t))

pub pop : SlideBuffer → ℕ → Option (Bool × SlideBuffer)
pop s n = if ltb s.size n then some (false, s) else (discard s n >>= λ t. some (true, t))

-- The length that the first four bytes announce; 0 while fewer than five bytes wait.
pub peek : SlideBuffer → Option ℕ
peek s = if ltb s.size 5 || ltb s.capacity 5 then some 0 else read32 s.buf

pub get_size : SlideBuffer → ℕ
get_size s = s.size

pub is_empty : SlideBuffer → Bool
is_empty s = s.size == 0

pub get_capacity : SlideBuffer → ℕ
get_capacity s = s.capacity

-- `GetBuf` hands out the block, of which a reader takes `n` bytes (`std::string_view(buf, n)`).
pub view : SlideBuffer → ℕ → List ℕ
view s n = take n s.buf

-- The bytes that wait to be read, oldest first.
abbrev pub contents : SlideBuffer → List ℕ
contents s = take s.size s.buf

-- The block is as long as `capacity` says, holds what waits, and its length is a `uint32_t`.
pub record IsValid (s : SlideBuffer) : Type 0 where
  pub allocated : length s.buf ≡ s.capacity
  pub fits : s.size ≤ s.capacity
  pub word : s.capacity < 2 ^ 32
