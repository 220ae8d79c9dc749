-- ===== src/Core/TokenMap.antt =====
-- What the map of tokens answers after a change.
use socket_server_lib.Prelude.{
  ℕ, ◌≡◌, refl, ap, ◌∙◌, none, some, List, [], ◌∷◌, arith, ◌==◌, if◌then◌else◌,
}
use socket_server_lib.Core.{find, emplace, erase}

pub find-erase :
    (m : List (ℕ × ℕ)) (k j : ℕ) → find (erase m k) j ≡ (if k == j then none else find m j)
unfolding find erase
find-erase [] k j = ground arith
find-erase ((k', v) ∷ m) k j = ground (arith, find-erase m k j)

emplace-absent : (m : List (ℕ × ℕ)) (k v : ℕ) → find m k ≡ none → emplace m k v ≡ (k, v) ∷ m
unfolding emplace
emplace-absent m k v h = rw (emplace, h)

find-cons :
    (m : List (ℕ × ℕ)) (k v j : ℕ) → find ((k, v) ∷ m) j ≡ (if k == j then some v else find m j)
unfolding find
find-cons m k v j = refl

pub find-emplace :
    (m : List (ℕ × ℕ)) (k v j : ℕ)
    → find m k ≡ none
    → find (emplace m k v) j ≡ (if k == j then some v else find m j)
find-emplace m k v j h = ap (λ m'. find m' j) (emplace-absent m k v h) ∙ find-cons m k v j
