-- ===== src/SlideBuffer/Overflow.antt =====
-- The guard of `SlideBuffer::Enqueue` adds two `uint32_t`, and the sum may wrap.
use socket_server_lib.Prelude.{
  ℕ, ◌+◌, ◌^◌, ◌≤◌, ◌<◌, ◌≡◌, ◌↔◌, none, List, arith, length, copy_memory_past, dec_lt, suc, ◌-◌,
  some, false, Option, ◌==◌, if◌then◌else◌,
}
use socket_server_lib.SlideBuffer.{SlideBuffer, IsValid, enqueue}
use socket_server_lib.SlideBuffer.Fifo.{enqueue-put}

-- The copy leaves the block exactly when the request and the bytes that wait add up to 2 ^ 32 or
-- more: then the sum wraps below the capacity and the guard lets it pass.
pub enqueue-none_iff :
    {s : SlideBuffer} (source : List ℕ) (n : ℕ)
    → IsValid s
    → n ≤ length source
    → n < 2 ^ 32
    → (enqueue s (some source) n ≡ none) ↔ (2 ^ 32 ≤ n + s.size)
unfolding enqueue
enqueue-none_iff {s} source n v h k = (
  λ e. elim (dec_lt (n + s.size) (2 ^ 32)) [
    | yes p ↦ let r = enqueue-put v source n h p in absurd (rw e at r)
    | no p ↦ omega arith
  ],
  λ w. ground (arith, copy_memory_past s.buf s.size source n),
)

-- So does the -1 of a failed receive, passed as a `uint32_t`: it is refused only by an empty buffer.
pub enqueue_minus_one :
    {s : SlideBuffer} (source : List ℕ)
    → IsValid s
    → suc s.capacity < 2 ^ 32
    → enqueue s (some source) (2 ^ 32 - 1) ≡ (if s.size == 0 then some (false, s) else none)
unfolding enqueue
enqueue_minus_one {s} source v small =
    ground (arith, v, copy_memory_past s.buf s.size source (2 ^ 32 - 1))

-- Bytes that are refused leave the buffer as it was.
pub enqueue-refused :
    {s t : SlideBuffer} (source : Option (List ℕ)) (n : ℕ)
    → enqueue s source n ≡ some (false, t)
    → t ≡ s
unfolding enqueue
enqueue-refused none n e = ground arith
enqueue-refused (some source) n e = ground arith
