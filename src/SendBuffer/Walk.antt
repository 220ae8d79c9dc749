-- ===== src/SendBuffer/Walk.antt =====
-- A walk over the array from the read offset to the write offset meets the queue in order. It is
-- how `GetWSABUF`, `Allocate` and the destructor go through the packets.
use socket_server_lib.Prelude.{
  ℕ, suc, ◌+◌, ◌<◌, ◌≡◌, ◌≢◌, sym, ap, ◌∙◌, subst, none, some, List, [], ◌∷◌, arith, length,
  get_elem?, get_elem?-eq-get_or,
}
use socket_server_lib.PacketData.{PacketData}
use socket_server_lib.SendBuffer.{SendBuffer, next_index}
use socket_server_lib.SendBuffer.Ring.{Holds, slot_after, slot_after_lem, next_index_lem}

-- From slot `i` the walk meets the packets of a list and then the write offset.
abbrev pub Walk : SendBuffer → ℕ → List PacketData → Type 0
Walk s i [] = i ≡ s.write
Walk s i (p ∷ r) =
    (i ≢ s.write)
    × (get_elem? s.slots i ≡ some (some p))
    × (next_index s i ≡ some (slot_after s.capacity i 1))
    × Walk s (slot_after s.capacity i 1) r

module _ {s : SendBuffer} {q : List PacketData} (h : Holds s q) where
  slot_in : (k : ℕ) → k < s.capacity → slot_after s.capacity s.read k < s.capacity
  slot_in k b = ground (arith, h.read_in, slot_after_lem s.capacity s.read k h.read_in)

  Walk-from :
      (k : ℕ) (r : List PacketData)
      → length q ≡ k + length r
      → ((j : ℕ) → get_elem? q (k + j) ≡ get_elem? r j)
      → Walk s (slot_after s.capacity s.read k) r
  Walk-from k [] e agree = ap (slot_after s.capacity s.read) (omega (arith, e)) ∙ sym h.write_at
  Walk-from k (p ∷ r) e agree = (
    ground (
      arith,
      e,
      h.room,
      h.read_in,
      h.write_at,
      slot_after_lem s.capacity s.read k h.read_in,
      slot_after_lem s.capacity s.read (length q) h.read_in,
    ),
    get_elem?-eq-get_or s.slots (slot_after s.capacity s.read k) none
          (omega (arith, h.array, slot_in k (omega (arith, e, h.room))))
        ∙ ap some (h.held k (omega (arith, e, h.room)) ∙ ap (get_elem? q) (omega arith) ∙ agree 0),
    next_index_lem h (slot_after s.capacity s.read k) (slot_in k (omega (arith, e, h.room))),
    subst (λ i. Walk s i r) step
        (Walk-from (suc k) r (omega (arith, e))
          (λ j. ap (get_elem? q) (omega arith) ∙ agree (suc j))),
  )
    where
      step :
          slot_after s.capacity s.read (suc k)
          ≡ slot_after s.capacity (slot_after s.capacity s.read k) 1
      step = ground (
        arith,
        e,
        h.room,
        h.read_in,
        slot_in k,
        slot_after_lem s.capacity s.read k h.read_in,
        slot_after_lem s.capacity s.read (suc k) h.read_in,
        slot_after_lem s.capacity (slot_after s.capacity s.read k) 1,
      )

  pub Walk-Holds : Walk s s.read q
  Walk-Holds =
      subst (λ i. Walk s i q) start
        (Walk-from 0 q (omega arith) (λ j. ap (get_elem? q) (omega arith)))
    where
      start : slot_after s.capacity s.read 0 ≡ s.read
      start = ground (arith, h.read_in, slot_after_lem s.capacity s.read 0 h.read_in)
