-- ===== src/SlideBuffer/Fifo.antt =====
-- What a slide buffer promises: it is a queue of bytes of bounded length.
use socket_server_lib.Prelude.{
  length-move_down, take-move_down, ℕ, suc, ◌+◌, ◌-◌, ◌*◌, ◌^◌, ◌≤◌, ◌<◌, ◌≡◌, refl, sym, ap, ◌∙◌,
  Bool, true, false, some, List, [], ◌∷◌, ◌++◌, arith, min, ltb, if◌then◌else◌, read32, Ends,
  length, take, drop, length-take, take-take, drop-take, length-copy_memory, take-copy_memory,
  copy_memory, copy_memory_inside, le→leb, take_of_length_le, drop_of_length_le,
}
use socket_server_lib.SlideBuffer.{
  SlideBuffer, IsValid, contents, clear, enqueue, discard, dequeue, pop, peek, get_size, view,
}

unfoldable pub put : ℕ → List ℕ → List ℕ → Bool × List ℕ
put cap q bytes = if ltb cap (length bytes + length q) then (false, q) else (true, q ++ bytes)

unfoldable pub skip : List ℕ → ℕ → Bool × List ℕ
skip q n = if ltb (length q) n then (false, q) else (true, drop n q)

-- The length that a message at the front announces in its first four bytes.
abbrev pub announced : List ℕ → ℕ
announced (a ∷ b ∷ c ∷ d ∷ e ∷ _) = a + 256 * b + 2 ^ 16 * c + 2 ^ 24 * d
announced _ = 0

pub announced_short : (q : List ℕ) → length q < 5 → announced q ≡ 0
announced_short (a ∷ b ∷ c ∷ d ∷ e ∷ q) h = absurd (omega arith)
announced_short _ h = refl

announced-take :
    (n : ℕ) (buf : List ℕ) → 5 ≤ n → n ≤ length buf → read32 buf ≡ some (announced (take n buf))
announced-take (suc (suc (suc (suc (suc n))))) (a ∷ b ∷ c ∷ d ∷ e ∷ buf) h k = refl
announced-take _ _ h k = absurd (omega arith)

pub length-contents : {s : SlideBuffer} → IsValid s → length (contents s) ≡ s.size
length-contents {s} v = omega (arith, length-take {0} s.size s.buf)

pub get_size-length : {s : SlideBuffer} → IsValid s → get_size s ≡ length (contents s)
unfolding get_size
get_size-length v = sym (length-contents v)

-- What a reader sees behind the pointer that `GetBuf` gives.
pub view-take :
    {s : SlideBuffer}
    → IsValid s
    → (n : ℕ) → n ≤ length (contents s)
    → view s n ≡ take n (contents s)
unfolding view
view-take {s} v n h = sym (take-take n s.size s.buf (omega (arith, length-contents v)))

pub clear-IsValid : {s : SlideBuffer} → IsValid s → IsValid (clear s) × (contents (clear s) ≡ [])
unfolding clear
clear-IsValid v = (ground arith, refl)

-- What an operation leaves: a valid buffer of the same capacity.
pub record Kept (s t : SlideBuffer) : Type 0 where
  pub valid : IsValid t
  pub same_capacity : t.capacity ≡ s.capacity

module _ {s : SlideBuffer} (v : IsValid s) where
  enqueue-copy :
      (source : List ℕ) (n : ℕ)
      → n ≤ length source
      → n + s.size ≤ s.capacity
      → Ends
          (copy_memory s.buf s.size source n)
          (λ b. (length b ≡ length s.buf) × (take (s.size + n) b ≡ contents s ++ take n source))
  enqueue-copy source n h k =
      let e = copy_memory_inside s.buf s.size source n (omega arith) h in
      rw e (length-copy_memory s.buf s.size source n e, take-copy_memory s.buf s.size source n e)

  pub enqueue-put :
      (source : List ℕ) (n : ℕ)
      → n ≤ length source
      → n + s.size < 2 ^ 32
      → Ends
          (enqueue s (some source) n)
          (λ r. Kept s r.1 × ((r.0, contents r.1) ≡ put s.capacity (contents s) (take n source)))
  unfolding enqueue put
  enqueue-put source n h k =
      ground (arith, length-contents v, length-take n source, enqueue-copy source n h)

  pub discard-drop :
      (n : ℕ) → n ≤ s.size → Ends (discard s n) (λ t. Kept s t × (contents t ≡ drop n (contents s)))
  unfolding discard
  discard-drop n h = rw (le→leb s.size (length s.buf) (omega arith)) (
    record {
      valid = ground (arith, length-move_down s.buf 0 n (s.size - n));
      same_capacity = refl;
    },
    take-move_down s.buf n (s.size - n) (omega arith) ∙ sym (drop-take n s.size s.buf),
  )

  dequeue-copy :
      (out : List ℕ) (n : ℕ)
      → n ≤ s.size
      → n ≤ length out
      → Ends (copy_memory out 0 s.buf n) (λ o. take n o ≡ take n (contents s))
  dequeue-copy out n h k =
      let e = copy_memory_inside out 0 s.buf n (omega arith) (omega arith) in
      rw e (
        ap (λ j. take j (take n s.buf ++ drop (0 + n) out)) (omega arith)
        ∙ take-copy_memory out 0 s.buf n e
        ∙ sym (take-take n s.size s.buf h))

  pub dequeue-take :
      (out : List ℕ) (max : ℕ)
      → max ≤ length out
      → Ends (dequeue s out max) (λ r.
        Kept s r.2
        × (r.0 ≡ min max s.size)
        × (take r.0 r.1 ≡ take max (contents s))
        × (contents r.2 ≡ drop max (contents s)))
  unfolding dequeue
  dequeue-take out max h = ground (
    arith,
    length-contents v,
    dequeue-copy out max,
    dequeue-copy out s.size,
    discard-drop max,
    discard-drop s.size,
    take_of_length_le s.size (contents s),
    take_of_length_le max (contents s),
    drop_of_length_le s.size (contents s),
    drop_of_length_le max (contents s),
  )

  pub pop-skip :
      (n : ℕ) → Ends (pop s n) (λ r. Kept s r.1 × ((r.0, contents r.1) ≡ skip (contents s) n))
  unfolding pop skip
  pop-skip n = ground (arith, length-contents v, discard-drop n)

  pub peek-announced : peek s ≡ some (announced (contents s))
  unfolding peek
  peek-announced =
      ground (arith, length-contents v, announced_short (contents s), announced-take s.size s.buf)
