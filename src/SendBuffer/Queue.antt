-- ===== src/SendBuffer/Queue.antt =====
-- Queues of packets: the bytes that wait in them, and the sizes of their packets.
use socket_server_lib.Prelude.{
  ℕ, zero, suc, ◌≤◌, ◌<◌, ◌≡◌, refl, sym, ap, ◌∙◌, List, [], ◌∷◌, ◌++◌, append_assoc, map, arith,
  take, drop,
}
use socket_server_lib.PacketData.{PacketData, IsValid, bytes}

-- The bytes that wait in a queue, in the order in which they go out.
abbrev pub pending : List PacketData → List ℕ
pending [] = []
pending (p ∷ q) = bytes p ++ pending q

abbrev pub AllValid : List PacketData → Type 0
AllValid [] = Unit {0}
AllValid (p ∷ q) = IsValid p × AllValid q

-- Packets of at most `m` bytes each.
abbrev pub AllSmall : ℕ → List PacketData → Type 0
AllSmall m [] = Unit {0}
AllSmall m (p ∷ q) = (p.size ≤ m) × AllSmall m q

-- Packets of one to `m` bytes each.
abbrev pub AllSized : ℕ → List PacketData → Type 0
AllSized m [] = Unit {0}
AllSized m (p ∷ q) = (0 < p.size) × (p.size ≤ m) × AllSized m q

pub AllSmall-of_AllSized :
    {m : ℕ} (k : ℕ) (q : List PacketData) → m ≤ k → AllSized m q → AllSmall k q
AllSmall-of_AllSized k [] h a = tt
AllSmall-of_AllSized {m} k (p ∷ q) h a = (omega arith, AllSmall-of_AllSized {m = m} k q h a.2)

pub AllValid-append : (q r : List PacketData) → AllValid q → AllValid r → AllValid (q ++ r)
AllValid-append [] r v w = w
AllValid-append (p ∷ q) r v w = (v.0, AllValid-append q r v.1 w)

pub AllSized-append :
    (m : ℕ) (q r : List PacketData) → AllSized m q → AllSized m r → AllSized m (q ++ r)
AllSized-append m [] r v w = w
AllSized-append m (p ∷ q) r v w = (v.0, v.1, AllSized-append m q r v.2 w)

pub pending-append : (q r : List PacketData) → pending (q ++ r) ≡ pending q ++ pending r
pending-append [] r = refl
pending-append (p ∷ q) r =
    ap (◌++◌ (bytes p)) (pending-append q r) ∙ sym (append_assoc (bytes p) (pending q) (pending r))

-- The bytes of several buffers, one behind the other.
abbrev pub joined : List (List ℕ) → List ℕ
joined [] = []
joined (b ∷ bs) = b ++ joined bs

-- Buffers for the first `k` packets hold the front of what waits.
pub joined-take :
    (k : ℕ) (q : List PacketData) → joined (map bytes (take k q)) ++ pending (drop k q) ≡ pending q
joined-take zero q = refl
joined-take (suc k) [] = refl
joined-take (suc k) (p ∷ q) =
    append_assoc (bytes p) (joined (map bytes (take k q))) (pending (drop k q))
    ∙ ap (◌++◌ (bytes p)) (joined-take k q)
