-- ===== src/SendBuffer/Allocate.antt =====
-- `SendBuffer::Allocate`: a new ring, and what becomes of the packets in the old one.
use socket_server_lib.Prelude.{
  ℕ, zero, suc, ◌^◌, ◌<◌, ◌≡◌, ◌≢◌, Bool, true, false, none, some, List, [], ◌∷◌, arith, ◌==◌,
  length, replicate, length-replicate, get_or-replicate, nonzero,
}
use socket_server_lib.PacketData.{PacketData}
use socket_server_lib.SendBuffer.{SendBuffer, allocate, delete_queued}
use socket_server_lib.SendBuffer.Ring.{Holds, slot_after, slot_after_lem, is_empty-Holds}
use socket_server_lib.SendBuffer.Walk.{Walk, Walk-Holds}

delete_queued-Walk :
    (fuel : ℕ) (s : SendBuffer) (i : ℕ) (q : List PacketData)
    → length q < fuel
    → Walk s i q
    → delete_queued fuel s i ≡ some q
unfolding delete_queued
delete_queued-Walk zero s i q f w = absurd (omega arith)
delete_queued-Walk (suc fuel) s i [] f w = ground arith
delete_queued-Walk (suc fuel) s i (p ∷ q) f (ne, slot, next, w) =
    rw (nonempty, slot, next)
      (rw (delete_queued-Walk fuel s (slot_after s.capacity i 1) q (omega arith) w))
  where
    nonempty : (i == s.write) ≡ false
    nonempty = ground arith

abbrev pub empty_ring : ℕ → SendBuffer
empty_ring cap = record { slots = replicate cap none; read = 0; write = 0; capacity = cap }

pub empty_ring-Holds : (cap : ℕ) → 0 < cap → cap < 2 ^ 32 → Holds (empty_ring cap) []
empty_ring-Holds cap h k = record {
  array = length-replicate cap none;
  read_in = h;
  word = k;
  room = h;
  write_at = ground (arith, slot_after_lem cap 0 0);
  held = λ i b. get_or-replicate cap (slot_after cap 0 i) none;
}

-- `Allocate` of another capacity deletes every queued packet once, in order, and leaves an empty
-- ring of that capacity.
pub allocate-empty_ring :
    {s : SendBuffer} {q : List PacketData} (cap : ℕ)
    → Holds s q
    → 0 < cap
    → cap ≢ s.capacity
    → allocate s cap true ≡ some (true, empty_ring cap, q)
unfolding allocate
allocate-empty_ring {s} {q = []} cap h pos other = ground (arith, is_empty-Holds h, h.read_in)
allocate-empty_ring {s} {q = p ∷ q} cap h pos other = rw (
  nonzero cap (omega arith),
  unlike,
  nonzero s.capacity (omega arith),
  is_empty-Holds h,
  nonzero (suc (length q)) (omega arith),
  delete_queued-Walk (suc s.capacity) s s.read (p ∷ q) (omega arith) (Walk-Holds h),
)
  where
    unlike : (cap == s.capacity) ≡ false
    unlike = ground arith

-- `Allocate` of the capacity that the ring has keeps the queue, and so the packets in it.
pub allocate-same :
    {s : SendBuffer} {q : List PacketData} (granted : Bool)
    → Holds s q
    → allocate s s.capacity granted ≡ some (true, s, [])
unfolding allocate
allocate-same {s} granted h = ground arith
