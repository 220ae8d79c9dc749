-- ===== src/Core/Tokens.antt =====
-- Over any sequence of calls, the map of tokens says whose each token is.
use socket_server_lib.Prelude.{
  ℕ, ◌^◌, ◌<◌, ◌≡◌, refl, none, arith, ◌==◌, if◌then◌else◌, Option-cases, inl, inr, nonzero,
  is_zero, ℕ_discrete,
}
use socket_server_lib.Connection
use socket_server_lib.Connection.{Connection, set_udp_token}
use socket_server_lib.Core.{
  Core, find, get_connection, make_token, get_udp_token, renew_udp_token, clear_udp_token,
}
use socket_server_lib.Core.Registry.{Registered, Reassigned-Registered}
use socket_server_lib.Core.Change.{
  make_token-upper, cleared-Reassigned, renewed-Reassigned, without, zero_unknown,
}

module _ {core : Core} (r : Registered core) (i : ℕ) where
  pub clear_udp_token-Registered : Registered (clear_udp_token core i)
  unfolding clear_udp_token set_udp_token
  clear_udp_token-Registered = elim (Option-cases (get_connection core i)) [
    | inl e ↦ rw (clear_udp_token, e) r
    | inr (c, e) ↦
        rw (clear_udp_token, e)
          (Reassigned-Registered r (cleared-Reassigned r i e _ (without r i e)) (inl refl))
  ]

  pub renew_udp_token-Registered :
      (stamp : ℕ) → 0 < stamp → stamp < 2 ^ 31 → Registered (renew_udp_token core i stamp).1
  unfolding renew_udp_token set_udp_token
  renew_udp_token-Registered stamp pos small = elim (Option-cases (get_connection core i)) [
    | inl e ↦ rw (renew_udp_token, e) r
    | inr (c, e) ↦
        let w = make_token-upper i stamp pos small in
        rw (renew_udp_token, e)
          (Reassigned-Registered r
            (renewed-Reassigned r i e (make_token i stamp) _ w.0 w.1 (without r i e)) (inr w.0))
  ]

  pub get_udp_token-Registered :
      (stamp : ℕ) → 0 < stamp → stamp < 2 ^ 31 → Registered (get_udp_token core i stamp).1
  unfolding get_udp_token Connection.get_udp_token set_udp_token
  get_udp_token-Registered stamp pos small = elim (Option-cases (get_connection core i)) [
    | inl e ↦ rw (get_udp_token, e) r
    | inr (c, e) ↦ elim (ℕ_discrete c.udp_token 0) [
      | no old ↦ rw (get_udp_token, e, nonzero c.udp_token old) r
      | yes z ↦
          let w = make_token-upper i stamp pos small in
          rw (get_udp_token, e, is_zero c.udp_token z)
            (Reassigned-Registered r
              (renewed-Reassigned r i e (make_token i stamp) core.udp_tokens w.0 w.1 (nothing c z))
              (inr w.0))
    ]
  ]
    where
      nothing :
          (c : Connection)
          → c.udp_token ≡ 0
          → (t : ℕ)
          → find core.udp_tokens t ≡ (if c.udp_token == t then none else find core.udp_tokens t)
      nothing c z t = ground (arith, zero_unknown r i)
