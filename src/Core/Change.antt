-- ===== src/Core/Change.antt =====
-- What a new token, or none, for one client does to the map.
use socket_server_lib.Prelude.{
  ℕ, ◌/◌, ◌^◌, ◌<◌, ◌≡◌, ◌≢◌, refl, sym, ap, ◌∙◌, none, some, List, arith, ◌==◌, if◌then◌else◌,
  Option-cases, inl, inr, nonzero, ℕ_discrete,
}
use socket_server_lib.Connection.{Connection}
use socket_server_lib.Core.{Core, find, emplace, erase, get_connection, update, make_token}
use socket_server_lib.Core.TokenMap.{find-erase, find-emplace}
use socket_server_lib.Core.Registry.{Registered, Reassigned, token_of, get_connection-update}

-- The core when client `i` is `d` and the map is `m`.
abbrev pub changed : Core → ℕ → Connection → List (ℕ × ℕ) → Core
changed core i d m = record (update core i d) { udp_tokens = m }

token_of-changed :
    (core : Core) (i j : ℕ) {c : Connection} (d : Connection) (m : List (ℕ × ℕ))
    → get_connection core i ≡ some c
    → token_of (changed core i d m) j ≡ (if i == j then d.udp_token else token_of core j)
unfolding token_of get_connection
token_of-changed core i j {c} d m e =
    same_table ∙ ground (arith, get_connection-update core i j d e)
  where
    same_table : token_of (changed core i d m) j ≡ token_of (update core i d) j
    same_table = refl

-- A token with the time in its lower half.
pub make_token-upper :
    (i stamp : ℕ)
    → 0 < stamp
    → stamp < 2 ^ 31
    → (make_token i stamp / 2 ^ 32 ≡ i) × (make_token i stamp ≢ 0)
unfolding make_token
make_token-upper i stamp pos small = ground arith

module _ {core : Core} (r : Registered core) (i : ℕ) where
  pub zero_unknown : find core.udp_tokens 0 ≡ none
  zero_unknown = elim (Option-cases (find core.udp_tokens 0)) [
    | inl e ↦ e
    | inr (j, e) ↦ absurd ((r.known 0 j e).1 refl)
  ]

  -- No client has a token of `i` but `i` itself.
  fresh :
      (token : ℕ)
      → token / 2 ^ 32 ≡ i
      → token ≢ 0
      → token ≢ token_of core i
      → find core.udp_tokens token ≡ none
  fresh token upper ne new = elim (Option-cases (find core.udp_tokens token)) [
    | inl e ↦ e
    | inr (j, e) ↦
        let same = (r.known token j e).0 in
        let own : j ≡ i = omega (arith, same, upper, r.dated j (λ z. ne (sym same ∙ z))) in
        absurd (new (sym same ∙ ap (token_of core) own))
  ]

  module _ {c : Connection} (e : get_connection core i ≡ some c) where
    has : token_of core i ≡ c.udp_token
    unfolding token_of
    has = rw (token_of, e)

    pub cleared-Reassigned :
        (m : List (ℕ × ℕ))
        → ((t : ℕ) → find m t ≡ (if c.udp_token == t then none else find core.udp_tokens t))
        → Reassigned core (changed core i (record c { udp_token = 0 }) m) i 0
    cleared-Reassigned m h = record {
      tokens = λ j. token_of-changed core i j (record c { udp_token = 0 }) m e;
      finds = λ t. ground (arith, has, h t, zero_unknown);
    }

    pub renewed-Reassigned :
        (token : ℕ) (m : List (ℕ × ℕ))
        → token / 2 ^ 32 ≡ i
        → token ≢ 0
        → ((t : ℕ) → find m t ≡ (if c.udp_token == t then none else find core.udp_tokens t))
        → Reassigned core
            (changed core i (record c { udp_token = token }) (emplace m token i))
            i
            token
    renewed-Reassigned token m upper ne h = record {
      tokens =
          λ j. token_of-changed core i j (record c { udp_token = token }) (emplace m token i) e;
      finds = λ t. ground (arith, has, h t, zero_unknown, find-emplace m token i t absent);
    }
      where
        absent : find m token ≡ none
        absent = ground (arith, has, h token, fresh token upper ne)

    -- What `erase` leaves of the map, if it is called.
    pub without :
        (t : ℕ)
        → find (if c.udp_token == 0 then core.udp_tokens else erase core.udp_tokens c.udp_token) t
          ≡ (if c.udp_token == t then none else find core.udp_tokens t)
    without t = elim (ℕ_discrete c.udp_token 0) [
      | yes z ↦ ground (arith, zero_unknown)
      | no ne ↦ rw (nonzero c.udp_token ne) (find-erase core.udp_tokens c.udp_token t)
    ]
