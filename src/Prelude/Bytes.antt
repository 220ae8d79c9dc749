-- ===== src/Prelude/Bytes.antt =====
-- Blocks of bytes: what a memory copy does to them, and 32-bit words as four bytes, the low one
-- first, which is how the machines that the servers run on store them.
use Prim.Native.Nat.{ℕ, ◌+◌, ◌-◌, ◌*◌, ◌/◌, ◌%◌, ◌^◌, ◌≤◌, ◌<◌}
use mathlib.Core.Path.{◌≡◌, ap, subst, ◌∙◌}
use mathlib.Core.Bool.{◌&&◌}
use mathlib.Core.List.{List, [], ◌∷◌, ◌++◌, append_assoc}
use mathlib.Core.Option.{Option, none, some}
use native.Mathlib.Omega.{arith}
use socket_server_lib.Prelude.Tests.{leb, le→leb, if◌then◌else◌}
use socket_server_lib.Prelude.Lists.{
  length, take, drop, replicate, replicate-append, take-replicate, drop-replicate, length-replicate,
  length-append, length-take, length-drop, take-length-append,
}

-- A sum of two `uint32_t`, which wraps.
abbrev pub add32 : ℕ → ℕ → ℕ
add32 a b = (a + b) % 2 ^ 32

-- `CopyMemory(buf + at, src, n)` between two blocks: the `n` bytes replace those from `at` on.
-- `none` when it would read or write outside either block.
unfoldable pub copy_memory : List ℕ → ℕ → List ℕ → ℕ → Option (List ℕ)
copy_memory buf at src n =
    if leb (at + n) (length buf) && leb n (length src)
    then some (take at buf ++ (take n src ++ drop (at + n) buf))
    else none

abbrev pub le32 : ℕ → List ℕ
le32 w = (w % 256) ∷ (w / 256 % 256) ∷ (w / 2 ^ 16 % 256) ∷ (w / 2 ^ 24 % 256) ∷ []

-- The word that the first four bytes of a block hold.
abbrev pub read32 : List ℕ → Option ℕ
read32 (a ∷ b ∷ c ∷ d ∷ _) = some (a + 256 * b + 2 ^ 16 * c + 2 ^ 24 * d)
read32 _ = none

pub read32-le32 : (w : ℕ) (rest : List ℕ) → w < 2 ^ 32 → read32 (le32 w ++ rest) ≡ some w
read32-le32 w rest h = ground arith

module _ (buf : List ℕ) (at : ℕ) (src : List ℕ) (n : ℕ) where
  pub copy_memory_inside :
      at + n ≤ length buf
      → n ≤ length src
      → copy_memory buf at src n ≡ some (take at buf ++ (take n src ++ drop (at + n) buf))
  unfolding copy_memory
  copy_memory_inside h k = rw (le→leb _ _ h, le→leb _ _ k)

  pub copy_memory_past : length buf < at + n → copy_memory buf at src n ≡ none
  unfolding copy_memory
  copy_memory_past h = ground arith

  -- A copy that succeeds lies inside both blocks.
  pub copy_memory-eq_some :
      {b : List ℕ}
      → copy_memory buf at src n ≡ some b
      → (at + n ≤ length buf)
        × (n ≤ length src)
        × (b ≡ take at buf ++ (take n src ++ drop (at + n) buf))
  unfolding copy_memory
  copy_memory-eq_some h = ground arith

  -- The block keeps its length.
  pub length-copy_memory : {b : List ℕ} → copy_memory buf at src n ≡ some b → length b ≡ length buf
  length-copy_memory h = ground (
    arith,
    copy_memory-eq_some h,
    length-append (take at buf) (take n src ++ drop (at + n) buf),
    length-append (take n src) (drop (at + n) buf),
    length-take at buf,
    length-take n src,
    length-drop (at + n) buf,
  )

  -- Up to the end of the copy stand the old front and then the bytes copied.
  pub take-copy_memory :
      {b : List ℕ} → copy_memory buf at src n ≡ some b → take (at + n) b ≡ take at buf ++ take n src
  take-copy_memory h =
      let e = copy_memory-eq_some h in
      let front : List ℕ = take at buf ++ take n src in
      let len : at + n ≡ length front = omega (
        arith,
        length-append {0} (take at buf) (take n src),
        length-take {0} at buf,
        length-take {0} n src,
        e.0,
        e.1,
      ) in
      rw (e.2, ← append_assoc)
        (ap (λ k. take k (front ++ drop (at + n) buf)) len
          ∙ take-length-append front (drop (at + n) buf))

-- A copy to the front of a block.
pub take-copy_front :
    (buf src : List ℕ) (n : ℕ) {b : List ℕ}
    → copy_memory buf 0 src n ≡ some b
    → take n b ≡ take n src
take-copy_front buf src n {b} e =
    let z : 0 + n ≡ n = omega arith in
    subst (λ j. take j b ≡ take n src) z (take-copy_memory buf 0 src n e)

-- Memory that is all zeros, as `{}` and ZeroMemory leave it. Shut, since such blocks are long.
pub zero_memory : ℕ → List ℕ
zero_memory n = replicate n 0

pub length-zero_memory : (n : ℕ) → length (zero_memory n) ≡ n
unfolding zero_memory
length-zero_memory n = length-replicate n 0

pub zero_memory-append : (n k : ℕ) → zero_memory n ++ zero_memory k ≡ zero_memory (n + k)
unfolding zero_memory
zero_memory-append n k = replicate-append n k 0

pub drop-zero_memory : (n k : ℕ) → drop n (zero_memory k) ≡ zero_memory (k - n)
unfolding zero_memory
drop-zero_memory n k = drop-replicate n k 0

pub take-zero_memory : (n k : ℕ) → n ≤ k → take n (zero_memory k) ≡ zero_memory n
unfolding zero_memory
take-zero_memory n k h = take-replicate n k 0 h

-- A block is copied to the front of zeroed memory that is as long at least.
pub copy_memory-zero_memory :
    (n : ℕ) (src : List ℕ) (k : ℕ)
    → k ≤ length src
    → k ≤ n
    → copy_memory (zero_memory n) 0 src k ≡ some (take k src ++ zero_memory (n - k))
copy_memory-zero_memory n src k h fits =
    copy_memory_inside (zero_memory n) 0 src k (omega (arith, length-zero_memory n)) h
    ∙ ap (λ l. some (take k src ++ l))
        (ap (λ j. drop j (zero_memory n)) at_front ∙ drop-zero_memory k n)
  where
    at_front : 0 + k ≡ k
    at_front = omega arith

-- More bytes behind a block do not change the word at its front.
pub read32-append : {w : ℕ} (xs ys : List ℕ) → read32 xs ≡ some w → read32 (xs ++ ys) ≡ some w
read32-append (a ∷ b ∷ c ∷ d ∷ xs) ys h = h
read32-append [] ys h = cc
read32-append (a ∷ []) ys h = cc
read32-append (a ∷ b ∷ []) ys h = cc
read32-append (a ∷ b ∷ c ∷ []) ys h = cc
