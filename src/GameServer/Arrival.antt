-- ===== src/GameServer/Arrival.antt =====
-- A datagram on its way through WorkerThread, `IOCPCore::DoUDPRecv` and `GameServer::OnUDPReceive`, up to
-- the job that is queued for it.
use socket_server_lib.Prelude.{
  ℕ, ◌^◌, ◌≤◌, ◌≡◌, ◌↔◌, ◌⊎◌, inl, inr, refl, sym, ap, ◌∙◌, Bool, false, Option, none, some, List,
  [], ◌∷◌, length, ◌>>=◌, Option-cases, subst,
}
use socket_server_lib.Connection.{Connection, UdpAddr, set_udp_ip}
use socket_server_lib.Core.{Core, find, get_connection, update, do_udp_recv}
use socket_server_lib.Core.Dispatch
use socket_server_lib.Core.Dispatch.{Action, dispatch}
use socket_server_lib.Core.Dispatch.Release.{datagram, datagram-none_iff}
use socket_server_lib.Job.{Job, create_udp_job, header_size, req_message_size}
use socket_server_lib.Job.Fault.{type_of, create_udp_job-faults}

-- `OnUDPReceive`: the job that it queues, if it makes one.
pub on_udp_receive : ℕ → List ℕ → Bool → Option (Option Job)
on_udp_receive i sv granted = create_udp_job i sv granted

-- The part of `DoUDPRecv` behind its look at the token: the client that the datagram is passed on for, if
-- any, and the core.
pub pass_on : List ℕ → Bool → Option ℕ × Core → Option (Core × Option Job)
pass_on sv granted (none, core) = some (core, none)
pass_on sv granted (some i, core) = on_udp_receive i sv granted >>= λ job. some (core, job)

-- `DoUDPRecv` of the bytes `sv` from `addr`, where the header in the buffer has `token`; `granted` says
-- whether the pool gives a block for the job.
pub receive_datagram : Core → ℕ → UdpAddr → List ℕ → Bool → Option (Core × Option Job)
receive_datagram core token addr sv granted = pass_on sv granted (do_udp_recv core token addr)

-- The calls that WorkerThread makes for a datagram; of these only `DoUDPRecv` comes.
pub call_all : Core → ℕ → UdpAddr → List ℕ → Bool → List Action → Option (Core × Option Job)
call_all core token addr sv granted (Dispatch.do_udp_recv n ∷ []) =
    receive_datagram core token addr sv granted
call_all core token addr sv granted _ = some (core, none)

pub work_datagram : Bool → Core → ℕ → UdpAddr → List ℕ → Bool → Option (Core × Option Job)
work_datagram is_run core token addr sv granted =
    dispatch is_run (datagram (length sv)) >>= λ r. call_all core token addr sv granted r.0

-- The token belongs to a client that is there.
abbrev pub Known : Core → ℕ → Type 0
Known core token =
    (i : ℕ) × (c : Connection) × (find core.udp_tokens token ≡ some i)
    × (get_connection core i ≡ some c)

-- What `OnUDPReceive` leaves on a core.
abbrev queued_on : Core → Option (Option Job) → Option (Core × Option Job)
queued_on core o = o >>= λ job. some (core, job)

queued_on-none : (core : Core) (o : Option (Option Job)) → queued_on core o ≡ none → o ≡ none
queued_on-none core none e = refl
queued_on-none core (some job) e = cc

abbrev get_some : ℕ → Option ℕ → ℕ
get_some d none = d
get_some d (some n) = n

other_client :
    (core : Core) (token i : ℕ)
    → Known core token
    → find core.udp_tokens token ≡ some i
    → get_connection core i ≡ none
    → ⊥
other_client core token i (j, c, e, f) e' f' =
    let same : some j ≡ some i = sym e ∙ e' in
    let p : get_connection core i ≡ some c =
      subst (λ o. get_connection core (get_some i o) ≡ some c) same f in
    let q = sym f' ∙ p in cc

module _ (core : Core) (token : ℕ) (addr : UdpAddr) (sv : List ℕ) (granted : Bool) where
  receive_datagram-unknown :
      find core.udp_tokens token ≡ none
      → receive_datagram core token addr sv granted ≡ some (core, none)
  unfolding receive_datagram pass_on do_udp_recv
  receive_datagram-unknown e = ap (pass_on sv granted) not_passed
    where
      not_passed : do_udp_recv core token addr ≡ (none, core)
      not_passed = rw (do_udp_recv, e)

  receive_datagram-gone :
      (i : ℕ)
      → find core.udp_tokens token ≡ some i
      → get_connection core i ≡ none
      → receive_datagram core token addr sv granted ≡ some (core, none)
  unfolding receive_datagram pass_on do_udp_recv
  receive_datagram-gone i e f = ap (pass_on sv granted) not_passed
    where
      not_passed : do_udp_recv core token addr ≡ (none, core)
      not_passed = rw (do_udp_recv, e, f)

  receive_datagram-known :
      (i : ℕ) {c : Connection}
      → find core.udp_tokens token ≡ some i
      → get_connection core i ≡ some c
      → receive_datagram core token addr sv granted
        ≡ queued_on (update core i (set_udp_ip c addr)) (create_udp_job i sv granted)
  unfolding receive_datagram pass_on do_udp_recv on_udp_receive
  receive_datagram-known i {c} e f = ap (pass_on sv granted) passed
    where
      passed : do_udp_recv core token addr ≡ (some i, update core i (set_udp_ip c addr))
      passed = rw (do_udp_recv, e, f)

  receive_datagram-none_iff :
      length sv ≤ req_message_size
      → (receive_datagram core token addr sv granted ≡ none)
        ↔ (Known core token × (header_size ≤ length sv) × (2 ^ 31 ≤ type_of sv))
  receive_datagram-none_iff k = elim (Option-cases (find core.udp_tokens token)) [
    | inl e ↦ (
      λ fault. let p = sym (receive_datagram-unknown e) ∙ fault in cc,
      λ h. let p = sym e ∙ h.0.2 in cc,
    )
    | inr (i, e) ↦ elim (Option-cases (get_connection core i)) [
      | inl f ↦ (
        λ fault. let p = sym (receive_datagram-gone i e f) ∙ fault in cc,
        λ h. absurd (other_client core token i h.0 e f),
      )
      | inr (c, f) ↦
          let d : Core = update core i (set_udp_ip c addr) in
          let iff = create_udp_job-faults i sv granted k in
          let same = receive_datagram-known i e f in
          (
            λ fault.
                let (full, negative) =
                  iff.0 (queued_on-none d (create_udp_job i sv granted) (sym same ∙ fault)) in
                ((i, c, e, f), full, negative),
            λ h. same ∙ ap (queued_on d) (iff.1 (h.1, h.2)),
          )
    ]
  ]

  -- The completion of a successful receive of the datagram `sv`, of at most as many bytes as `UDPReqMessage`
  -- takes, on the UDP socket faults, from WorkerThread through DoUDPRecv to the job that OnUDPReceive
  -- makes, exactly if the datagram has no bytes, or if the token is that of a client that is there, and
  -- there is a full header with a negative type, read as an `int32_t`.
  pub work_datagram-none_iff :
      (is_run : Bool)
      → length sv ≤ req_message_size
      → (work_datagram is_run core token addr sv granted ≡ none)
        ↔ ((length sv ≡ 0) ⊎ (Known core token × (header_size ≤ length sv) × (2 ^ 31 ≤ type_of sv)))
  unfolding work_datagram call_all
  work_datagram-none_iff is_run k =
      let (empty, or_called) = datagram-none_iff is_run (length sv) in
      let iff = receive_datagram-none_iff k in
      elim or_called [
        | inl e ↦ (λ fault. inl (empty.0 e), λ h. rw (work_datagram, e) refl)
        | inr e ↦ (
          λ fault. inr (iff.0 (sym (called e) ∙ fault)),
          λ h. called e ∙ elim h [ inl z ↦ absurd (not_empty e (empty.1 z)) | inr r ↦ iff.1 r ],
        )
      ]
    where
      called :
          dispatch is_run (datagram (length sv))
            ≡ some (Dispatch.do_udp_recv (length sv) ∷ [], false)
          → work_datagram is_run core token addr sv granted
            ≡ receive_datagram core token addr sv granted
      called e = rw (work_datagram, e) refl

      not_empty :
          dispatch is_run (datagram (length sv))
            ≡ some (Dispatch.do_udp_recv (length sv) ∷ [], false)
          → dispatch is_run (datagram (length sv)) ≡ none
          → ⊥
      not_empty e z = let p = sym e ∙ z in cc
