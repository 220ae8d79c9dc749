-- ===== src/Job/Fault.antt =====
-- `JobFactory::CreateUDPJob`: which datagrams leave the table of functions.
use socket_server_lib.Prelude.{
  if◌then◌else◌, ℕ, ◌+◌, ◌*◌, ◌-◌, ◌^◌, ◌≤◌, ◌<◌, ◌≡◌, ◌↔◌, refl, sym, ◌∙◌, Bool, true, false,
  Option, none, some, List, [], ◌∷◌, arith, ltb, length, drop, read32, zero_memory, length-append,
  length-drop, length-zero_memory, ◌>>=◌, lt→ltb, dec_lt,
}
use socket_server_lib.Job.{
  Job, JobKind, echo_job, req_token_job, udp_echo_job, construct, parse, make_job, call_create_func,
  create_udp_job, beyond_last, req_message_size, header_size, udp_req_message_size,
  echo_parameter_size,
}
use socket_server_lib.Job.Create.{call_total, call_past, listed, behind, type_view}
use socket_server_lib.Job.Datagram.{udp_image, udp_image_copied, udp_word}

-- The word that a list of four bytes or more begins with.
word_there : (l : List ℕ) → 4 ≤ length l → (w : ℕ) × (read32 l ≡ some w)
word_there (a ∷ b ∷ c ∷ d ∷ l) h = (a + 256 * b + 2 ^ 16 * c + 2 ^ 24 * d, refl)
word_there [] h = absurd (omega arith)
word_there (a ∷ []) h = absurd (omega arith)
word_there (a ∷ b ∷ []) h = absurd (omega arith)
word_there (a ∷ b ∷ c ∷ []) h = absurd (omega arith)

-- `Parse` refuses what is longer than its parameter.
parse_long :
    (kind : JobKind) (view : List ℕ) (n : ℕ)
    → echo_parameter_size < n
    → (r : Bool × List ℕ) × (parse kind (construct kind).param view n ≡ some r)
unfolding parse
parse_long echo_job view n h =
    ((false, zero_memory echo_parameter_size), rw (lt→ltb echo_parameter_size n h) refl)
parse_long req_token_job view n h = ((true, zero_memory 0), refl)
parse_long udp_echo_job view n h =
    ((false, zero_memory echo_parameter_size), rw (lt→ltb echo_parameter_size n h) refl)

make_job_long :
    (kind : JobKind) (view : List ℕ) (n : ℕ) (granted : Bool)
    → echo_parameter_size < n
    → (r : Option Job) × (make_job kind view n granted ≡ some r)
unfolding make_job
make_job_long kind view n false h = (none, refl)
make_job_long kind view n true h =
    let (r, e) = parse_long kind view n h in
    (if r.0 then some (record (construct kind) { param = r.1 }) else none, rw e)

-- Any length that a datagram claims is handled.
claimed_total :
    (type : ℕ) (view : List ℕ) (n : ℕ) (granted : Bool)
    → echo_parameter_size ≤ length view
    → type ≤ 2
    → (r : Option Job) × (call_create_func type view n granted ≡ some r)
unfolding call_create_func
claimed_total type view n granted h k = elim (dec_lt echo_parameter_size n) [
  | no short ↦ call_total type view n granted (omega (arith, h, short)) k
  | yes long ↦ elim (type_view type) [
    | behind e b ↦ absurd (omega (arith, k, b))
    | listed kind e b ↦
        let (r, f) = make_job_long kind view n granted long in (r, rw (call_create_func, e) f)
  ]
]

module _ (client : ℕ) (sv : List ℕ) (granted : Bool) where
  length-udp_image : length sv ≤ req_message_size → length (udp_image sv) ≡ udp_req_message_size
  length-udp_image h = omega (
    arith,
    h,
    length-append {0} sv (zero_memory (udp_req_message_size - length sv)),
    length-zero_memory (udp_req_message_size - length sv),
  )

  -- What `CreateUDPJob` does with a datagram of a full header.
  abbrev tried : ℕ → ℕ → Option (Option Job)
  tried type n =
      if beyond_last type
      then some none
      else (call_create_func type (drop 20 (udp_image sv)) n granted >>= λ made.
          some (elim made [ none ↦ none | some job ↦ some (record job { client = client }) ]))

  create_udp_job-tried :
      {type n : ℕ}
      → header_size ≤ length sv
      → length sv ≤ req_message_size
      → read32 (drop 4 (udp_image sv)) ≡ some type
      → read32 (drop 16 (udp_image sv)) ≡ some n
      → create_udp_job client sv granted ≡ tried type n
  unfolding create_udp_job
  create_udp_job-tried {type} {n} h k e f = rw (long_enough, fits, udp_image_copied sv k, e, f)
    where
      long_enough : ltb (length sv) header_size ≡ false
      long_enough = ground (arith, h)

      fits : ltb req_message_size (length sv) ≡ false
      fits = ground (arith, k)

  -- The kinds of types: negative, above LAST and known.
  tried-none_iff :
      (type n : ℕ) → length sv ≤ req_message_size → (tried type n ≡ none) ↔ (2 ^ 31 ≤ type)
  tried-none_iff type n k = elim (dec_lt type (2 ^ 31)) [
    | no negative ↦ (
      λ e. omega (arith, negative),
      λ h. rw (not_beyond h, call_past type (drop 20 (udp_image sv)) n granted (omega (arith, h))),
    )
    | yes small ↦ elim (dec_lt 2 type) [
      | yes big ↦ (
        λ e. let p = (rw (is_beyond big small) at e) in cc,
        λ h. absurd (omega (arith, h, small)),
      )
      | no known ↦
          let (r, c) =
            claimed_total type (drop 20 (udp_image sv)) n granted view_long
              (omega (arith, known)) in
          (
            λ e. let p = (rw (not_above (omega (arith, known)), c) at e) in cc,
            λ h. absurd (omega (arith, h, small)),
          )
    ]
  ]
    where
      not_beyond : 2 ^ 31 ≤ type → beyond_last type ≡ false
      not_beyond h = ground (arith, h)

      is_beyond : 2 < type → type < 2 ^ 31 → beyond_last type ≡ true
      is_beyond a b = ground (arith, a, b)

      not_above : type ≤ 2 → beyond_last type ≡ false
      not_above a = ground (arith, a)

      view_long : echo_parameter_size ≤ length (drop 20 (udp_image sv))
      view_long = omega (arith, length-drop {0} 20 (udp_image sv), length-udp_image k)

  -- A datagram of a full header makes a job or none, unless its type is negative.
  pub create_udp_job-none_iff :
      {type : ℕ}
      → header_size ≤ length sv
      → length sv ≤ req_message_size
      → read32 (drop 4 (udp_image sv)) ≡ some type
      → (create_udp_job client sv granted ≡ none) ↔ (2 ^ 31 ≤ type)
  create_udp_job-none_iff {type} h k e =
      let (n, f) =
        word_there (drop 16 (udp_image sv))
          (omega (arith, length-drop {0} 16 (udp_image sv), length-udp_image k)) in
      let t = tried-none_iff type n k in
      let same = create_udp_job-tried h k e f in
      (λ fault. t.0 (sym same ∙ fault), λ negative. same ∙ t.1 negative)

  -- A shorter one makes no job.
  pub create_udp_job-short : length sv < header_size → create_udp_job client sv granted ≡ some none
  unfolding create_udp_job
  create_udp_job-short h = rw (lt→ltb (length sv) header_size h)

-- The type in the header of a datagram, 0 where it has none.
pub type_of : List ℕ → ℕ
type_of sv = elim (read32 (drop 4 sv)) [ none ↦ 0 | some type ↦ type ]

-- `CreateUDPJob` leaves the memory that it may use exactly when a datagram of a full header has a negative
-- type, read as an `int32_t`, whatever length it claims for its payload.
pub create_udp_job-faults :
    (client : ℕ) (sv : List ℕ) (granted : Bool)
    → length sv ≤ req_message_size
    → (create_udp_job client sv granted ≡ none)
      ↔ ((header_size ≤ length sv) × (2 ^ 31 ≤ type_of sv))
unfolding type_of
create_udp_job-faults client sv granted k = elim (dec_lt (length sv) header_size) [
  | yes short ↦ (
    λ e. let p = (rw (create_udp_job-short client sv granted short) at e) in cc,
    λ h. absurd (omega (arith, h.0, short)),
  )
  | no enough ↦
      let (type, e) = word_there (drop 4 sv) (omega (arith, enough, length-drop {0} 4 sv)) in
      let iff =
        create_udp_job-none_iff client sv granted {type = type} (omega (arith, enough)) k
          (udp_word 4 sv (omega (arith, enough)) e) in
      rw (type_of, e) ((λ fault. (omega (arith, enough), iff.0 fault), λ h. iff.1 h.1))
]
