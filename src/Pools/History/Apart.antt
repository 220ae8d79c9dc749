-- ===== src/Pools/History/Apart.antt =====
-- The packets of the pool stay apart and fresh.
use socket_server_lib.Prelude.{
  ℕ, ◌+◌, ◌≤◌, ◌<◌, ◌≡◌, refl, sym, ap, ◌∙◌, Option, none, some, List, [], ◌∷◌, ◌++◌, arith, ◌>>=◌,
  subst, Ends, Ends-bind, Ends-some, ℕ_discrete, is_zero, nonzero,
}
use socket_server_lib.PacketData
use socket_server_lib.PacketData.{PacketData, IsValid, packet_size}
use socket_server_lib.PacketData.Storage.{allocate-new, allocate-none, clear-IsValid}
use mathlib.Core.Option.{none-ne-some, some-injective}
use socket_server_lib.Pools.{Packet, make_packet, allocate_packet, deallocate_packet}
use socket_server_lib.Pools.History.{
  occurs, remove, addresses, World, Event, alloc, dealloc, unused, handed, taken_back, step, run,
  IsFresh, AllFresh, FitsBlock, Fits, AllFit, Inv, occurs-append, occurs-remove,
}

AllFresh-append :
    (xs : List Packet) (x : Packet) → AllFresh xs → IsFresh x → AllFresh (xs ++ (x ∷ []))
AllFresh-append [] x a f = (f, tt)
AllFresh-append (y ∷ xs) x a f = (a.0, AllFresh-append xs x a.1 f)

-- What `new` gave is a fresh packet at that address.
abbrev pub MadeAt : Option ℕ → Option Packet → Type 0
MadeAt a none = Unit {0}
MadeAt a (some x) = IsFresh x × (a ≡ some x.0)

pub make_packet-MadeAt :
    (a : Option ℕ) (block : Option (List ℕ))
    → FitsBlock block
    → Ends (make_packet a block) (MadeAt a)
unfolding make_packet
make_packet-MadeAt none block h = tt
make_packet-MadeAt (some b) none h = rw (allocate-none PacketData.new packet_size) tt
make_packet-MadeAt (some b) (some block) h = rw (allocate-new packet_size block (omega arith)) (
  record {
    valid = record { allocated = h; fits = omega arith; word = omega arith };
    wide = refl;
    empty = refl;
  },
  refl,
)

unused_lem :
    (w : World) (a : Option ℕ) {b : ℕ}
    → unused w a ≡ some b
    → occurs (addresses w.free) b + occurs w.out b ≡ 0
unfolding unused
unused_lem w none e = absurd (none-ne-some _ e)
unused_lem w (some c) {b} e = elim (ℕ_discrete (occurs (addresses w.free) c + occurs w.out c) 0) [
  | yes z ↦
      let p = (rw (is_zero _ z) at e) in
      subst (λ d. occurs (addresses w.free) d + occurs w.out d ≡ 0) (some-injective _ _ p) z
  | no nz ↦ let p = (rw (nonzero _ nz) at e) in absurd (none-ne-some _ p)
]

-- The addresses stay apart when `x`, which was free, or new, is handed out.
handed-Inv :
    (w : World) (x : Packet) (free : List Packet)
    → ((b : ℕ) → occurs (addresses free) b + occurs (x.0 ∷ w.out) b ≤ 1)
    → AllFresh free
    → AllFresh w.given
    → IsFresh x
    → Inv (handed w (some x) free)
unfolding handed
handed-Inv w x free d f g n = record { distinct = d; free_fresh = f; given_fresh = (n, g) }

new-Inv :
    (w : World) (a : Option ℕ) (o : Option Packet)
    → Inv w
    → MadeAt (unused w a) o
    → w.free ≡ []
    → Inv (handed w o [])
unfolding handed occurs
new-Inv w a none v m e = record {
  distinct = λ b. omega (arith, v.distinct b);
  free_fresh = tt;
  given_fresh = v.given_fresh;
}
new-Inv w a (some x) v m e =
    handed-Inv w x [] (λ b. apart b (ℕ_discrete x.0 b)) tt v.given_fresh m.0
  where
    unseen : occurs (addresses w.free) x.0 + occurs w.out x.0 ≡ 0
    unseen = unused_lem w a m.1

    apart : (b : ℕ) → Dec (x.0 ≡ b) → 0 + occurs (x.0 ∷ w.out) b ≤ 1
    apart b (yes p) =
        let z : occurs w.out b ≡ 0 = ap (occurs w.out) (sym p) ∙ omega (arith, unseen) in
        ground (arith, p, z)
    apart b (no ne) =
        let d : occurs (addresses w.free) b + occurs w.out b ≤ 1 = v.distinct b in
        ground (arith, ne, d)

popped-Inv :
    (w : World) (x : Packet) (free : List Packet)
    → Inv w
    → w.free ≡ x ∷ free
    → Inv (handed w (some x) free)
unfolding occurs
popped-Inv w x free v e =
    let f : AllFresh (x ∷ free) = subst AllFresh e v.free_fresh in
    handed-Inv w x free (λ b. apart b (ap (λ l. occurs (addresses l) b) e) (v.distinct b)) f.1
      v.given_fresh f.0
  where
    apart :
        (b : ℕ)
        → occurs (addresses w.free) b ≡ occurs (x.0 ∷ addresses free) b
        → occurs (addresses w.free) b + occurs w.out b ≤ 1
        → occurs (addresses free) b + occurs (x.0 ∷ w.out) b ≤ 1
    apart b p q = ground (arith, p, q)

alloc-Inv :
    (w : World) (free : List Packet) (a : Option ℕ) (block : Option (List ℕ))
    → Inv w
    → FitsBlock block
    → w.free ≡ free
    → Ends (allocate_packet free (unused w a) block >>= λ r. some (handed w r.0 r.1)) Inv
unfolding allocate_packet
alloc-Inv w [] a block v f e =
    let m =
      Ends-some (make_packet (unused w a) block) (MadeAt (unused w a))
        (make_packet-MadeAt (unused w a) block f) in
    rw m.1 (new-Inv w a m.0 v m.2 e)
alloc-Inv w (x ∷ free) a block v f e = popped-Inv w x free v e

dealloc-Inv :
    (w : World) (x : Packet)
    → Inv w
    → IsValid x.1
    → x.1.capacity ≡ packet_size
    → Inv (taken_back w x)
unfolding taken_back deallocate_packet
dealloc-Inv w x v valid wide = elim (ℕ_discrete (occurs w.out x.0) 0) [
  | yes z ↦ rw (is_zero _ z) v
  | no nz ↦ rw (nonzero _ nz) (back (omega (arith, nz)))
]
  where
    cleared :
        IsValid (PacketData.clear x.1)
        × ((PacketData.clear x.1).capacity ≡ x.1.capacity)
        × ((PacketData.clear x.1).size ≡ 0)
    cleared = clear-IsValid valid

    apart :
        0 < occurs w.out x.0
        → (b : ℕ) → occurs (addresses w.free) b + occurs w.out b ≤ 1
        → occurs (addresses (w.free ++ ((x.0, PacketData.clear x.1) ∷ []))) b
            + occurs (remove w.out x.0) b
          ≤ 1
    apart h b d =
        omega (
          arith,
          d,
          occurs-append w.free (x.0, PacketData.clear x.1) b,
          occurs-remove w.out x.0 b h,
        )

    back :
        0 < occurs w.out x.0
        → Inv (record w {
          free = w.free ++ ((x.0, PacketData.clear x.1) ∷ []);
          out = remove w.out x.0;
        })
    back h = record {
      distinct = λ b. apart h b (v.distinct b);
      free_fresh =
          AllFresh-append w.free (x.0, PacketData.clear x.1) v.free_fresh
            (record { valid = cleared.0; wide = cleared.1 ∙ wide; empty = cleared.2 });
      given_fresh = v.given_fresh;
    }

step-Inv : (w : World) (e : Event) → Inv w → Fits e → Ends (step w e) Inv
unfolding step
step-Inv w (alloc a block) v f = alloc-Inv w w.free a block v f refl
step-Inv w (dealloc x) v f = dealloc-Inv w x v f.0 f.1

pub run-Inv : (w : World) (es : List Event) → Inv w → AllFit es → Ends (run w es) Inv
unfolding run
run-Inv w [] v f = v
run-Inv w (e ∷ es) v f =
    Ends-bind (step w e) (λ u. run u es) Inv Inv (step-Inv w e v f.0) (λ u k. run-Inv u es k f.1)
