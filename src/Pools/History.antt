-- ===== src/Pools/History.antt =====
-- Any history of the pool of packets.
pub mod Apart
pub mod Filled
use socket_server_lib.Prelude.{
  ℕ, zero, suc, ◌+◌, ◌-◌, ◌^◌, ◌≤◌, ◌<◌, ◌≡◌, refl, sym, ap, ◌∙◌, Bool, true, false, ◌||◌, Option,
  none, some, List, [], ◌∷◌, ◌++◌, map, arith, length, ◌==◌, if◌then◌else◌, ◌>>=◌, Bool-cases, inl,
  inr, subst, Ends, Ends-bind, Ends-some, ℕ_discrete, is_zero, nonzero,
}
use socket_server_lib.PacketData
use socket_server_lib.PacketData.{PacketData, IsValid, packet_size}
use socket_server_lib.PacketData.Storage.{allocate-new, allocate-none, clear-IsValid}
use mathlib.Core.Option.{none-ne-some, some-injective}
use socket_server_lib.Pools.{Packet, make_packet, allocate_packet, deallocate_packet}

unfoldable pub occurs : List ℕ → ℕ → ℕ
occurs [] b = 0
occurs (c ∷ bs) b = let n = occurs bs b in if c == b then suc n else n

-- The first of them goes.
pub remove : List ℕ → ℕ → List ℕ
remove [] b = []
remove (c ∷ bs) b = let rest = remove bs b in if c == b then bs else c ∷ rest

abbrev pub addresses : List Packet → List ℕ
addresses = map (λ x. x.0)

-- The addresses that `new` gives to the constructor.
unfoldable pub named : List (Option ℕ × Option (List ℕ)) → List ℕ
named [] = []
named ((none, block) ∷ answers) = named answers
named ((some b, block) ∷ answers) = b ∷ named answers

-- The pool, the addresses that are handed out, and every packet that Allocate gave, as it gave it.
pub record World : Type 0 where
  pub free : List Packet
  pub out : List ℕ
  pub given : List Packet

pub data Event : Type 0 where
  alloc : Option ℕ → Option (List ℕ) → Event
  dealloc : Packet → Event

-- `new` gives no address that is in use; one that is counts as nullptr.
pub unused : World → Option ℕ → Option ℕ
unused w none = none
unused w (some b) = if occurs (addresses w.free) b + occurs w.out b == 0 then some b else none

pub handed : World → Option Packet → List Packet → World
handed w none free = record w { free = free }
handed w (some x) free = record { free = free; out = x.0 ∷ w.out; given = x ∷ w.given }

-- Only a packet that is handed out is given back.
pub taken_back : World → Packet → World
taken_back w x =
    if occurs w.out x.0 == 0
    then w
    else record w { free = deallocate_packet w.free (some x); out = remove w.out x.0 }

pub step : World → Event → Option World
step w (alloc fresh block) =
    allocate_packet w.free (unused w fresh) block >>= λ r. some (handed w r.0 r.1)
step w (dealloc x) = some (taken_back w x)

pub run : World → List Event → Option World
run w [] = some w
run w (e ∷ es) = step w e >>= λ v. run v es

-- A packet as a job wants it.
pub record IsFresh (x : Packet) : Type 0 where
  pub valid : IsValid x.1
  pub wide : x.1.capacity ≡ packet_size
  pub empty : x.1.size ≡ 0

abbrev pub AllFresh : List Packet → Type 0
AllFresh [] = Unit {0}
AllFresh (x ∷ xs) = IsFresh x × AllFresh xs

-- Blocks have the length that was asked for, and a packet comes back valid, in a block of PACKET_SIZE bytes.
abbrev pub FitsBlock : Option (List ℕ) → Type 0
FitsBlock none = Unit {0}
FitsBlock (some block) = length block ≡ packet_size

abbrev pub AllBlocks : List (Option ℕ × Option (List ℕ)) → Type 0
AllBlocks [] = Unit {0}
AllBlocks (a ∷ answers) = FitsBlock a.1 × AllBlocks answers

abbrev pub Fits : Event → Type 0
Fits (alloc fresh block) = FitsBlock block
Fits (dealloc x) = IsValid x.1 × (x.1.capacity ≡ packet_size)

abbrev pub AllFit : List Event → Type 0
AllFit [] = Unit {0}
AllFit (e ∷ es) = Fits e × AllFit es

pub record Inv (w : World) : Type 0 where
  pub distinct : (b : ℕ) → occurs (addresses w.free) b + occurs w.out b ≤ 1
  pub free_fresh : AllFresh w.free
  pub given_fresh : AllFresh w.given

pub occurs-append :
    (free : List Packet) (x : Packet) (b : ℕ)
    → occurs (addresses (free ++ (x ∷ []))) b ≡ occurs (addresses free) b + occurs (x.0 ∷ []) b
unfolding occurs
occurs-append [] x b = omega arith
occurs-append (y ∷ free) x b = ground (arith, occurs-append free x b)

pub occurs-remove :
    (bs : List ℕ) (a b : ℕ)
    → 0 < occurs bs a
    → occurs (remove bs a) b + occurs (a ∷ []) b ≡ occurs bs b
unfolding occurs remove
occurs-remove [] a b h = absurd (omega arith)
occurs-remove (c ∷ bs) a b h = elim (ℕ_discrete c a) [
  | yes e ↦ ground (arith, e)
  | no ne ↦
      let later : 0 < occurs bs a = ground (arith, h, ne) in
      ground (arith, ne, occurs-remove bs a b later)
]
