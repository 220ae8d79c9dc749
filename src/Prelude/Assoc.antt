-- ===== src/Prelude/Assoc.antt =====
-- Tables from numbers to values, a key at most once.
use Prim.Native.Nat.{ℕ}
use mathlib.Core.Path.{◌≡◌, refl}
use mathlib.Core.List.{List, [], ◌∷◌}
use mathlib.Core.Option.{Option, none, some}
use native.Mathlib.Omega.{arith}
use socket_server_lib.Prelude.Tests.{◌==◌, if◌then◌else◌}

module _ {ℓ} {A : Type ℓ} where
  unfoldable pub lookup_key : List (ℕ × A) → ℕ → Option A
  lookup_key [] k = none
  lookup_key ((k', v) ∷ m) k = if k' == k then some v else lookup_key m k

  unfoldable pub assign_key : List (ℕ × A) → ℕ → A → List (ℕ × A)
  assign_key [] k v = (k, v) ∷ []
  assign_key ((k', w) ∷ m) k v =
      let rest = assign_key m k v in if k' == k then (k, v) ∷ m else (k', w) ∷ rest

  unfoldable pub erase_key : List (ℕ × A) → ℕ → List (ℕ × A)
  erase_key [] k = []
  erase_key ((k', w) ∷ m) k = let rest = erase_key m k in if k' == k then rest else (k', w) ∷ rest

  pub lookup_key-assign_key :
      (m : List (ℕ × A)) (k j : ℕ) (v : A)
      → lookup_key (assign_key m k v) j ≡ (if k == j then some v else lookup_key m j)
  unfolding lookup_key assign_key
  lookup_key-assign_key [] k j v = refl
  lookup_key-assign_key ((k', w) ∷ m) k j v = ground (arith, lookup_key-assign_key m k j v)

  pub lookup_key-assign_self :
      (m : List (ℕ × A)) (k : ℕ) (v : A) → lookup_key (assign_key m k v) k ≡ some v
  lookup_key-assign_self m k v = ground (arith, lookup_key-assign_key m k k v)

  pub lookup_key-erase_key :
      (m : List (ℕ × A)) (k j : ℕ)
      → lookup_key (erase_key m k) j ≡ (if k == j then none else lookup_key m j)
  unfolding lookup_key erase_key
  lookup_key-erase_key [] k j = ground arith
  lookup_key-erase_key ((k', w) ∷ m) k j = ground (arith, lookup_key-erase_key m k j)
