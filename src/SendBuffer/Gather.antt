-- ===== src/SendBuffer/Gather.antt =====
-- `SendBuffer::GetWSABUF`: which packets one send takes along.
use socket_server_lib.Prelude.{
  ℕ, zero, suc, ◌+◌, ◌^◌, ◌≤◌, ◌<◌, ◌≡◌, refl, ◌∙◌, true, false, some, List, [], ◌∷◌, map, arith,
  ltb, leb, ◌==◌, if◌then◌else◌, length, take, Bool-cases, nonzero, ◌%◌, inl, inr,
}
use socket_server_lib.PacketData.{PacketData, bytes, packet_size}
use socket_server_lib.SendBuffer.Queue.{AllSmall}
use socket_server_lib.SendBuffer.{SendBuffer, gather, get_wsabuf, max_tcp_segment_size}
use socket_server_lib.SendBuffer.Ring.{Holds, is_empty-Holds, slot_after}
use socket_server_lib.SendBuffer.Walk.{Walk, Walk-Holds}

-- The same choice on a queue.
pub gather_queue : ℕ → ℕ → ℕ → List PacketData → List (List ℕ)
gather_queue bufcnt count total [] = []
gather_queue bufcnt count total (p ∷ q) =
    let rest = gather_queue bufcnt (count + 1) (total + p.size) q in
    if leb bufcnt count
    then []
    else if ltb max_tcp_segment_size (total + p.size)
    then []
    else bytes p ∷ rest

gather-gather_queue :
    (fuel : ℕ) (s : SendBuffer) (bufcnt i count total : ℕ) (q : List PacketData)
    → length q < fuel
    → Walk s i q
    → AllSmall packet_size q
    → bufcnt < 2 ^ 32
    → total ≤ max_tcp_segment_size
    → gather fuel s bufcnt i count total ≡ some (gather_queue bufcnt count total q)
unfolding gather gather_queue
gather-gather_queue zero s bufcnt i count total q f w a b t = absurd (omega arith)
gather-gather_queue (suc fuel) s bufcnt i count total [] f w a b t = ground arith
gather-gather_queue (suc fuel) s bufcnt i count total (p ∷ q) f (ne, slot, next, w) a b t =
    elim (Bool-cases (leb bufcnt count)) [
      | inl listed ↦ rw (on_queue, listed)
      | inr space ↦ elim (Bool-cases (ltb max_tcp_segment_size (total + p.size))) [
        | inl big ↦ rw (on_queue, space, slot, sum, big)
        | inr fits ↦
            rw (on_queue, space, slot, sum, fits, next, one_more space)
              (rw (
                gather-gather_queue fuel s bufcnt (slot_after s.capacity i 1) (count + 1)
                  (total + p.size) q (omega arith) w a.1 b (ground arith)))
      ]
    ]
  where
    on_queue : (i == s.write) ≡ false
    on_queue = ground arith

    sum : (total + p.size) % 2 ^ 32 ≡ total + p.size
    sum = omega (arith, a.0)

    one_more : leb bufcnt count ≡ false → (count + 1) % 2 ^ 32 ≡ count + 1
    one_more e = ground arith

pub sizes : List PacketData → ℕ
sizes [] = 0
sizes (p ∷ q) = p.size + sizes q

-- The packets that one send takes along are the first `k` of the queue.
pub record Batch (bufcnt : ℕ) (q : List PacketData) (k : ℕ) : Type 0 where
  pub queued : k ≤ length q
  pub few : k ≤ bufcnt
  pub light : sizes (take k q) ≤ max_tcp_segment_size
  pub greedy : k < bufcnt → k < length q → max_tcp_segment_size < sizes (take (suc k) q)

record BatchFrom (bufcnt count total : ℕ) (q : List PacketData) (k : ℕ) : Type 0 where
  queued : k ≤ length q
  few : count + k ≤ bufcnt
  light : total + sizes (take k q) ≤ max_tcp_segment_size
  greedy : count + k < bufcnt → k < length q → max_tcp_segment_size < total + sizes (take (suc k) q)

BatchFrom-cons :
    {p : PacketData} {bufcnt count total k : ℕ} {q : List PacketData}
    → BatchFrom bufcnt (count + 1) (total + p.size) q k
    → BatchFrom bufcnt count total (p ∷ q) (suc k)
unfolding sizes
BatchFrom-cons w = record {
  queued = omega (arith, w.queued);
  few = omega (arith, w.few);
  light = omega (arith, w.light);
  greedy = λ a b. omega (arith, w.greedy (omega arith) (omega arith));
}

gather_queue-BatchFrom :
    (bufcnt count total : ℕ) (q : List PacketData)
    → count ≤ bufcnt
    → total ≤ max_tcp_segment_size
    → (k : ℕ) × (gather_queue bufcnt count total q ≡ map bytes (take k q))
      × BatchFrom bufcnt count total q k
unfolding gather_queue sizes
gather_queue-BatchFrom bufcnt count total [] c t = (0, refl, omega arith)
gather_queue-BatchFrom bufcnt count total (p ∷ q) c t = elim (Bool-cases (leb bufcnt count)) [
  | inl listed ↦ rw listed (0, refl, ground arith)
  | inr space ↦ elim (Bool-cases (ltb max_tcp_segment_size (total + p.size))) [
    | inl big ↦ rw (space, big) (0, refl, ground arith)
    | inr fits ↦
        let (k, e, w) =
          gather_queue-BatchFrom bufcnt (count + 1) (total + p.size) q (ground arith)
            (ground arith) in
        rw (space, fits, e) (suc k, refl, BatchFrom-cons {p = p} w)
  ]
]

-- `GetWSABUF` never leaves the array. It lists the first packets of the queue, in order: at most
-- `bufcnt` of them, with at most MAX_TCP_SEGMENT_SIZE bytes together, and as many as these two
-- limits let it.
pub get_wsabuf-Batch :
    {s : SendBuffer} {q : List PacketData} (bufcnt : ℕ)
    → Holds s q
    → AllSmall packet_size q
    → bufcnt < 2 ^ 32
    → (k : ℕ) × (get_wsabuf s true bufcnt ≡ some (map bytes (take k q))) × Batch bufcnt q k
unfolding get_wsabuf sizes
get_wsabuf-Batch {s} {q} zero h a b = (0, refl, ground arith)
get_wsabuf-Batch {s} {q = []} (suc n) h a b =
    rw (nonzero (suc n) (omega arith), is_empty-Holds h) (0, refl, omega arith)
get_wsabuf-Batch {s} {q = p ∷ q} (suc n) h a b =
    let (k, e, w) = gather_queue-BatchFrom (suc n) 0 0 (p ∷ q) (omega arith) (omega arith) in
    (
      k,
      rw (
        nonzero (suc n) (omega arith),
        is_empty-Holds h,
        nonzero (suc (length q)) (omega arith),
        gather-gather_queue (suc s.capacity) s (suc n) s.read 0 0 (p ∷ q) (omega arith)
            (Walk-Holds h) a b (omega arith),
        e,
      ),
      record {
        queued = w.queued;
        few = omega (arith, w.few);
        light = omega (arith, w.light);
        greedy = λ x y. omega (arith, w.greedy (omega arith) y);
      },
    )

-- On a ring that holds a queue of packets of at most PACKET_SIZE bytes, GetWSABUF lists nothing while
-- the first of them has more than MAX_TCP_SEGMENT_SIZE bytes.
pub get_wsabuf-stuck :
    {s : SendBuffer} {p : PacketData} {q : List PacketData} (bufcnt : ℕ)
    → Holds s (p ∷ q)
    → AllSmall packet_size (p ∷ q)
    → bufcnt < 2 ^ 32
    → max_tcp_segment_size < p.size
    → get_wsabuf s true bufcnt ≡ some []
unfolding sizes
get_wsabuf-stuck {s} {p} {q} bufcnt h a b big =
    let (k, e, w) = get_wsabuf-Batch bufcnt h a b in e ∙ none_listed k w
  where
    none_listed : (k : ℕ) → Batch bufcnt (p ∷ q) k → some (map bytes (take k (p ∷ q))) ≡ some []
    none_listed zero w = refl
    none_listed (suc k) w = absurd (omega (arith, w.light))

-- A batch takes the first packet along, if that packet alone fits.
pub Batch-pos :
    {bufcnt k : ℕ} {p : PacketData} {q : List PacketData}
    → Batch bufcnt (p ∷ q) k
    → 0 < bufcnt
    → p.size ≤ max_tcp_segment_size
    → 0 < k
unfolding sizes
Batch-pos {k = zero} b h small = omega (arith, b.greedy h (omega arith))
Batch-pos {k = suc k} b h small = omega arith
