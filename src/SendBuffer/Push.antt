-- ===== src/SendBuffer/Push.antt =====
-- `SendBuffer::Push`: a packet goes to the end of the queue, unless one slot is left.
use socket_server_lib.Prelude.{
  ℕ, suc, ◌<◌, ◌≡◌, ◌⊎◌, inl, inr, refl, Bool, true, false, Option, none, some, List, [], ◌∷◌, ◌++◌,
  arith, ◌==◌, if◌then◌else◌, length, dec_lt, Ends,
}
use socket_server_lib.PacketData.{PacketData}
use socket_server_lib.SendBuffer.{SendBuffer, push}
use socket_server_lib.SendBuffer.Ring.{Holds, is_full-Holds, store-back, pushed}

pub push-back :
    {s : SendBuffer} {q : List PacketData} (p : PacketData)
    → Holds s q
    → suc (length q) < s.capacity
    → (push s (some p) ≡ some (true, pushed s p)) × Holds (pushed s p) (q ++ (p ∷ []))
unfolding push
push-back {s} {q} p h room =
    let w = store-back h p room in (rw (is_full-Holds h, not_full, w.0, w.1), w.2)
  where
    not_full : (suc (length q) == s.capacity) ≡ false
    not_full = ground (arith, room)

pub push-refused :
    {s : SendBuffer} {q : List PacketData} (p : Option PacketData)
    → Holds s q
    → (p ≡ none) ⊎ (suc (length q) ≡ s.capacity)
    → push s p ≡ some (false, s)
unfolding push
push-refused {s} {q} p h why = ground (arith, is_full-Holds h)

-- What `Push` makes of a queue of at most `capacity - 1` packets.
pub push_queue : ℕ → List PacketData → Option PacketData → Bool × List PacketData
push_queue cap q none = (false, q)
push_queue cap q (some p) = if suc (length q) == cap then (false, q) else (true, q ++ (p ∷ []))

-- `Push` never leaves the array, answers as the queue does, refusing null pointers and a packet too
-- many, and the array then holds the new queue.
pub push-push_queue :
    {s : SendBuffer} {q : List PacketData} (p : Option PacketData)
    → Holds s q
    → Ends (push s p) (λ r.
      (r.0 ≡ (push_queue s.capacity q p).0)
      × Holds r.1 (push_queue s.capacity q p).1
      × (r.1.capacity ≡ s.capacity))
unfolding push_queue
push-push_queue {s} {q} none h = rw (push-refused none h (inl refl)) (refl, h, refl)
push-push_queue {s} {q} (some p) h = elim (dec_lt (suc (length q)) s.capacity) [
  | yes room ↦ let w = push-back p h room in rw (w.0, not_full room) (refl, w.1, refl)
  | no full ↦ rw (push-refused (some p) h (inr (at_limit full)), is_limit full) (refl, h, refl)
]
  where
    not_full : suc (length q) < s.capacity → (suc (length q) == s.capacity) ≡ false
    not_full r = ground (arith, r)

    at_limit : ¬ (suc (length q) < s.capacity) → suc (length q) ≡ s.capacity
    at_limit f = omega (arith, f, h.room)

    is_limit : ¬ (suc (length q) < s.capacity) → (suc (length q) == s.capacity) ≡ true
    is_limit f = ground (arith, at_limit f)
