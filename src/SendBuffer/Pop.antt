-- ===== src/SendBuffer/Pop.antt =====
-- `SendBuffer::Pop`: the bytes that went out leave the queue, and whole packets go back to the pool.
use socket_server_lib.Prelude.{
  ℕ, zero, suc, ◌+◌, ◌-◌, ◌≤◌, ◌<◌, ◌≡◌, refl, ap, sym, ◌∙◌, some, List, [], ◌∷◌, ◌++◌, arith,
  le→leb, lt→not_leb, nonzero, ◌≢◌, ◌⊎◌, inl, inr, ◌>>=◌, length, take, drop, dec_lt, Ends-some,
  drop-append_of_ge, drop-append_of_le, length-take, ◌∙◌,
}
use socket_server_lib.PacketData
use socket_server_lib.PacketData.{PacketData, bytes, IsValid}
use socket_server_lib.PacketData.Storage.{pop-drop}
use socket_server_lib.SendBuffer.Queue.{pending, AllValid, AllSized}
use socket_server_lib.SendBuffer.{SendBuffer, pop, pop_loop}
use socket_server_lib.SendBuffer.Ring.{Holds, front-slot, store-front, drop-front, stored, popped}

-- `q'` is what is left of `q` when `n` bytes are gone, and `released` are the packets that are done.
pub record Popped (q : List PacketData) (n : ℕ) (q' released : List PacketData) : Type 0 where
  pub left : pending q' ≡ drop n (pending q)
  pub valid : AllValid q'
  pub done : released ≡ take (length released) q
  pub sized : (m : ℕ) → AllSized m q → AllSized m q'
  pub counted : length released + length q' ≡ length q

Popped-release :
    {p : PacketData} {q q' released : List PacketData} (n : ℕ)
    → IsValid p
    → p.size ≤ n
    → Popped q (n - p.size) q' released
    → Popped (p ∷ q) n q' (p ∷ released)
Popped-release {p} {q} n v h w =
    let len : length (bytes p) ≡ p.size = omega (arith, length-take {0} p.size p.buf) in
    record {
      left =
          w.left
          ∙ ap (λ k. drop (n - k) (pending q)) (sym len)
          ∙ sym (drop-append_of_ge n (bytes p) (pending q) (omega arith));
      valid = w.valid;
      done = ap (◌∷◌ p) w.done;
      sized = λ m a. w.sized m a.2;
      counted = omega (arith, w.counted);
    }

Popped-shrink :
    {p p' : PacketData} {q : List PacketData} (n : ℕ)
    → IsValid p
    → AllValid q
    → n < p.size
    → IsValid p'
    → p'.size ≡ p.size - n
    → bytes p' ≡ drop n (bytes p)
    → Popped (p ∷ q) n (p' ∷ q) []
Popped-shrink {p} {p'} {q} n v vs h v' size e =
    let len : length (bytes p) ≡ p.size = omega (arith, length-take {0} p.size p.buf) in
    record {
      left =
          ap (λ l. l ++ pending q) e
          ∙ sym (drop-append_of_le n (bytes p) (pending q) (omega arith));
      valid = (v', vs);
      done = refl;
      sized = λ m a. (omega (arith, size), omega (arith, size, a.1), a.2);
      counted = omega arith;
    }

Popped-stop : (q : List PacketData) (n : ℕ) → (q ≡ []) ⊎ (n ≡ 0) → AllValid q → Popped q n q []
Popped-stop q zero why v = record {
  left = refl;
  valid = v;
  done = refl;
  sized = λ m a. a;
  counted = omega arith;
}
Popped-stop [] (suc n) why v = record {
  left = refl;
  valid = v;
  done = refl;
  sized = λ m a. a;
  counted = omega arith;
}
Popped-stop (p ∷ q) (suc n) why v = ground arith

-- One round, by what the slot at the read offset holds.
module _ (fuel : ℕ) {s : SendBuffer} where
  pop_loop-stop :
      {q : List PacketData} (n : ℕ)
      → Holds s q
      → (q ≡ []) ⊎ (n ≡ 0)
      → pop_loop (suc fuel) s n ≡ some (s, [])
  unfolding pop_loop
  pop_loop-stop n h (inl e) = let slot = front-slot h in ground arith
  pop_loop-stop n h (inr e) = rw e

  pop_loop-release :
      {p : PacketData} {q : List PacketData} (n : ℕ)
      → Holds s (p ∷ q)
      → n ≢ 0
      → p.size ≤ n
      → pop_loop (suc fuel) s n
        ≡ (pop_loop fuel (popped s) (n - p.size) >>= λ r. some (r.0, p ∷ r.1))
  unfolding pop_loop
  pop_loop-release {p} n h k m =
      let w = drop-front h in rw (nonzero n k, front-slot h, le→leb p.size n m, w.0, w.1)

  pop_loop-shrink :
      {p p' : PacketData} {q : List PacketData} (n : ℕ)
      → Holds s (p ∷ q)
      → n ≢ 0
      → n < p.size
      → PacketData.pop p n ≡ some p'
      → pop_loop (suc fuel) s n ≡ some (stored s s.read (some p'), [])
  unfolding pop_loop
  pop_loop-shrink {p} {p'} n h k m e =
      rw (nonzero n k, front-slot h, lt→not_leb p.size n m, e, (store-front p' h).0)

pop_loop-Popped :
    (fuel : ℕ) {s : SendBuffer} (q : List PacketData) (n : ℕ)
    → length q < fuel
    → Holds s q
    → AllValid q
    → (t : SendBuffer) × (released : List PacketData) × (q' : List PacketData) × (pop_loop fuel s n
        ≡ some (t, released))
      × Holds t q'
      × (t.capacity ≡ s.capacity)
      × Popped q n q' released
pop_loop-Popped zero q n f h v = absurd (omega arith)
pop_loop-Popped (suc fuel) {s} q zero f h v =
    (s, [], q, pop_loop-stop fuel 0 h (inr refl), h, refl, Popped-stop q 0 (inr refl) v)
pop_loop-Popped (suc fuel) {s} [] (suc n) f h v = (
  s,
  [],
  [],
  pop_loop-stop fuel (suc n) h (inl refl),
  h,
  refl,
  Popped-stop [] (suc n) (inl refl) v,
)
pop_loop-Popped (suc fuel) {s} (p ∷ q) (suc n) f h v = elim (dec_lt (suc n) p.size) [
  | yes part ↦
      let w = Ends-some (PacketData.pop p (suc n)) _ (pop-drop (suc n) v.0) in
      (
        stored s s.read (some w.0),
        [],
        w.0 ∷ q,
        pop_loop-shrink fuel (suc n) h (omega arith) part w.1,
        (store-front w.0 h).1,
        refl,
        Popped-shrink (suc n) v.0 v.1 part w.2.0 w.2.2 w.2.3,
      )
  | no whole ↦
      let (t, released, q', e, h', c, w) =
        pop_loop-Popped fuel {s = popped s} q (suc n - p.size) (omega arith) (drop-front h).2 v.1 in
      (
        t,
        p ∷ released,
        q',
        rw (pop_loop-release fuel (suc n) h (omega arith) (omega arith), e),
        h',
        c,
        Popped-release (suc n) v.0 (omega arith) w,
      )
]

-- `Pop` ends within its rounds and never leaves the array. It takes exactly the first `io_size`
-- bytes off what waits (all of it, if there are fewer), hands back the packets at the front that
-- are done, in order, and the array holds the other packets.
pub pop-Popped :
    {s : SendBuffer} {q : List PacketData} (io_size : ℕ)
    → Holds s q
    → AllValid q
    → (t : SendBuffer) × (released : List PacketData) × (q' : List PacketData) × (pop s io_size
        ≡ some (t, released))
      × Holds t q'
      × (t.capacity ≡ s.capacity)
      × Popped q io_size q' released
unfolding pop
pop-Popped {s} {q} n h v = pop_loop-Popped (suc s.capacity) q n (omega (arith, h.room)) h v
