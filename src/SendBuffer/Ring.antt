-- ===== src/SendBuffer/Ring.antt =====
-- What the array of a send buffer holds: a queue of packets from the read offset on, and null
-- pointers in the slots that are left.
use socket_server_lib.Prelude.{
  ℕ, zero, suc, ◌+◌, ◌-◌, ◌%◌, ◌^◌, ◌≤◌, ◌<◌, ◌≡◌, ap, ◌∙◌, Option, none, some, List, [], ◌∷◌, ◌++◌,
  arith, ltb, ◌==◌, if◌then◌else◌, length, get_elem?, get_or, set, length-set, get_or-set,
  get_elem?-eq-get_or, get_elem?_past, get_elem?-append_last, length-append, dec_lt,
}
use native.Mathlib.Nat.{mod-eq_of_lt, mod-eq-sub-mod}
use socket_server_lib.PacketData.{PacketData}
use socket_server_lib.SendBuffer.{
  SendBuffer, next_index, is_empty, is_full, store, increment_write_offset, increment_read_offset,
}

-- The slot `i` places behind slot `h`.
abbrev pub slot_after : ℕ → ℕ → ℕ → ℕ
slot_after cap h i = (h + i) % cap

pub slot_after_lem :
    (cap h i : ℕ)
    → h < cap
    → i ≤ cap
    → slot_after cap h i ≡ (if ltb (h + i) cap then h + i else h + i - cap)
slot_after_lem cap h i a b = elim (dec_lt (h + i) cap) [
  | yes p ↦ ground (arith, mod-eq_of_lt p)
  | no p ↦ ground (
    arith,
    mod-eq-sub-mod {n = h + i} {m = cap} (omega arith),
    mod-eq_of_lt {n = h + i - cap} {m = cap} (omega arith),
  )
]

-- `q` is the queue, oldest first.
pub record Holds (s : SendBuffer) (q : List PacketData) : Type 0 where
  pub array : length s.slots ≡ s.capacity
  pub read_in : s.read < s.capacity
  pub word : s.capacity < 2 ^ 32
  pub room : length q < s.capacity
  pub write_at : s.write ≡ slot_after s.capacity s.read (length q)
  pub held :
      (i : ℕ)
      → i < s.capacity
      → get_or s.slots (slot_after s.capacity s.read i) none ≡ get_elem? q i

-- The buffer after a write to a slot, after a push and after the first packet is taken off.
abbrev pub stored : SendBuffer → ℕ → Option PacketData → SendBuffer
stored s i p = record s { slots = set s.slots i p }

abbrev pub pushed : SendBuffer → PacketData → SendBuffer
pushed s p = record s {
  slots = set s.slots s.write (some p);
  write = slot_after s.capacity s.write 1;
}

abbrev pub popped : SendBuffer → SendBuffer
popped s = record s { slots = set s.slots s.read none; read = slot_after s.capacity s.read 1 }

module _ {s : SendBuffer} {q : List PacketData} (h : Holds s q) where
  pub write_in : s.write < s.capacity
  write_in = ground (arith, h.write_at, slot_after_lem s.capacity s.read (length q) h.read_in)

  pub next_index_lem : (i : ℕ) → i < s.capacity → next_index s i ≡ some (slot_after s.capacity i 1)
  next_index_lem i k =
      let w : (i + 1) % 2 ^ 32 ≡ i + 1 = omega (arith, h.word) in ground (arith, w, h.read_in)

  pub is_empty-Holds : is_empty s ≡ (length q == 0)
  unfolding is_empty
  is_empty-Holds =
      ground (arith, h.write_at, h.room, slot_after_lem s.capacity s.read (length q) h.read_in)

  pub is_full-Holds : is_full s ≡ some (suc (length q) == s.capacity)
  unfolding is_full
  is_full-Holds = rw (next_index_lem s.write write_in) (
      ap some (
        ground (
          arith,
          h.write_at,
          h.room,
          write_in,
          slot_after_lem s.capacity s.read (length q) h.read_in,
          slot_after_lem s.capacity s.write 1 write_in,
        )))

  -- The slot that is read next.
  pub front-slot : get_elem? s.slots s.read ≡ some (get_elem? q 0)
  front-slot =
      get_elem?-eq-get_or s.slots s.read none (omega (arith, h.array, h.read_in))
      ∙ ap some (ground (arith, h.read_in, h.held 0, slot_after_lem s.capacity s.read 0 h.read_in))

  -- Storing a packet behind the last one.
  pub store-back :
      (p : PacketData)
      → suc (length q) < s.capacity
      → (store s s.write (some p) ≡ some (stored s s.write (some p)))
        × (increment_write_offset (stored s s.write (some p)) ≡ some (pushed s p))
        × Holds (pushed s p) (q ++ (p ∷ []))
  unfolding store increment_write_offset
  store-back p k = (
    ground (arith, write_in, h.array),
    rw (next_index_lem s.write write_in),
    record {
      array = length-set s.slots s.write (some p) ∙ h.array;
      read_in = h.read_in;
      word = h.word;
      room = omega (arith, length-append {0} q (p ∷ []), k);
      write_at = ground (
        arith,
        k,
        h.write_at,
        write_in,
        h.read_in,
        length-append q (p ∷ []),
        slot_after_lem s.capacity s.read (length q) h.read_in,
        slot_after_lem s.capacity s.read (length q + 1) h.read_in,
        slot_after_lem s.capacity s.write 1 write_in,
      );
      held = λ i b. ground (
        arith,
        k,
        h.write_at,
        write_in,
        h.read_in,
        h.array,
        h.held i b,
        get_or-set s.slots s.write (slot_after s.capacity s.read i) (some p) none,
        get_elem?-append_last q p i,
        slot_after_lem s.capacity s.read (length q) h.read_in,
        slot_after_lem s.capacity s.read i h.read_in,
      );
    },
  )

-- Writing the first packet anew.
pub store-front :
    {s : SendBuffer} {p : PacketData} {q : List PacketData} (p' : PacketData)
    → Holds s (p ∷ q)
    → (store s s.read (some p') ≡ some (stored s s.read (some p')))
      × Holds (stored s s.read (some p')) (p' ∷ q)
unfolding store
store-front {s} {p} {q} p' h = (
  ground arith,
  record {
    array = length-set s.slots s.read (some p') ∙ h.array;
    read_in = h.read_in;
    word = h.word;
    room = h.room;
    write_at = h.write_at;
    held = elim [
      | zero ↦ λ b. ground (
        arith,
        get_or-set s.slots s.read (slot_after s.capacity s.read 0) (some p') none,
        slot_after_lem s.capacity s.read 0 h.read_in,
      )
      | suc i ↦ λ b. ground (
        arith,
        h.held (suc i) b,
        get_or-set s.slots s.read (slot_after s.capacity s.read (suc i)) (some p') none,
        slot_after_lem s.capacity s.read (suc i) h.read_in,
      )
    ];
  },
)

-- Taking the first packet off.
pub drop-front :
    {s : SendBuffer} {p : PacketData} {q : List PacketData}
    → Holds s (p ∷ q)
    → (store s s.read none ≡ some (stored s s.read none))
      × (increment_read_offset (stored s s.read none) ≡ some (popped s))
      × Holds (popped s) q
unfolding store increment_read_offset
drop-front {s} {p} {q} h = (
  ground arith,
  rw (next_index_lem h s.read h.read_in),
  record {
    array = length-set s.slots s.read none ∙ h.array;
    read_in = ground (arith, one);
    word = h.word;
    room = omega arith;
    write_at = ground (
      arith,
      one,
      slot_after_lem s.capacity s.read (suc (length q)) h.read_in,
      slot_after_lem s.capacity (slot_after s.capacity s.read 1) (length q),
    );
    held = λ i b. elim (dec_lt (suc i) s.capacity) [
      | yes inside ↦ ground (
        arith,
        one,
        h.held (suc i) inside,
        get_or-set s.slots s.read (slot_after s.capacity (slot_after s.capacity s.read 1) i) none
            none,
        slot_after_lem s.capacity s.read (suc i) h.read_in,
        slot_after_lem s.capacity (slot_after s.capacity s.read 1) i,
      )
      | no last ↦ ground (
        arith,
        one,
        get_elem?_past q i,
        get_or-set s.slots s.read (slot_after s.capacity (slot_after s.capacity s.read 1) i) none
            none,
        slot_after_lem s.capacity (slot_after s.capacity s.read 1) i,
      )
    ];
  },
)
  where
    one :
        slot_after s.capacity s.read 1
        ≡ (if ltb (s.read + 1) s.capacity then s.read + 1 else s.read + 1 - s.capacity)
    one = slot_after_lem s.capacity s.read 1 h.read_in (omega arith)
