-- ===== src/PacketData/Storage.antt =====
-- The block behind a packet: what `Pop` and `Allocate` leave in it.
use socket_server_lib.Prelude.{
  none, false, refl, ℕ, ◌-◌, ◌≤◌, ◌<◌, ◌^◌, ◌≡◌, sym, ◌∙◌, take-nil, take_of_length_le, true, some,
  List, arith, Ends, length, take, drop, drop-take, take-take, length-take, drop_of_length_le,
  length-move_down, take-move_down, copy_memory, copy_memory_inside, length-copy_memory,
  take-copy_front,
}
use socket_server_lib.PacketData.{PacketData, IsValid, bytes, pop, allocate, new, clear}

length-bytes : {p : PacketData} → IsValid p → length (bytes p) ≡ p.size
length-bytes {p} v = omega (arith, length-take {0} p.size p.buf)

-- `Pop` stays in the block, and leaves the bytes behind the first `n`; a request for more than the
-- packet holds empties it.
pub pop-drop :
    {p : PacketData} (n : ℕ)
    → IsValid p
    → Ends (pop p n) (λ q.
      IsValid q × (q.capacity ≡ p.capacity) × (q.size ≡ p.size - n) × (bytes q ≡ drop n (bytes p)))
unfolding pop
pop-drop {p} n v = ground (
  arith,
  length-bytes v,
  drop_of_length_le n (bytes p),
  length-move_down p.buf 0 n (p.size - n),
  take-move_down p.buf n (p.size - n),
  drop-take n p.size p.buf,
)

allocate-copy :
    {p : PacketData} (n : ℕ) (block : List ℕ)
    → IsValid p
    → n ≤ length block
    → n ≤ p.size
    → Ends
        (copy_memory block 0 p.buf n)
        (λ b. (length b ≡ length block) × (take n b ≡ take n (bytes p)))
allocate-copy {p} n block v h k =
    let e = copy_memory_inside block 0 p.buf n (omega arith) (omega arith) in
    rw e (
      length-copy_memory block 0 p.buf n e,
      take-copy_front block p.buf n e ∙ sym (take-take n p.size p.buf k),
    )

-- `Allocate` moves to a new block of that length what fits of the old one, and fails on a length of
-- zero or without a block, leaving the packet alone.
pub allocate-take :
    {p : PacketData} (capacity : ℕ) (block : List ℕ)
    → IsValid p
    → length block ≡ capacity
    → 0 < capacity
    → capacity < 2 ^ 32
    → Ends (allocate p capacity (some block)) (λ r.
      (r.0 ≡ true)
      × IsValid r.1
      × (r.1.capacity ≡ capacity)
      × (bytes r.1 ≡ take capacity (bytes p)))
unfolding allocate
allocate-take {p} capacity block v e h k = ground (
  arith,
  length-bytes v,
  allocate-copy capacity block v,
  allocate-copy p.size block v,
  take_of_length_le capacity (bytes p),
  take_of_length_le p.size (bytes p),
  take-nil {0} {A = ℕ} capacity,
)

-- The packet that the constructor and `Allocate` make.
abbrev pub fresh : ℕ → List ℕ → PacketData
fresh n block = record { buf = block; size = 0; capacity = n }

pub allocate-new :
    (n : ℕ) (block : List ℕ) → 0 < n → allocate new n (some block) ≡ some (true, fresh n block)
unfolding allocate new
allocate-new n block h = ground (arith, h)

pub allocate-none : (p : PacketData) (n : ℕ) → allocate p n none ≡ some (false, p)
unfolding allocate
allocate-none p n = refl

-- A packet that is cleared is valid and empty, in the same block.
pub clear-IsValid :
    {p : PacketData}
    → IsValid p
    → IsValid (clear p) × ((clear p).capacity ≡ p.capacity) × ((clear p).size ≡ 0)
unfolding clear
clear-IsValid v =
    (record { allocated = v.allocated; fits = omega arith; word = v.word }, refl, refl)
