-- ===== src/Job/Create.antt =====
-- `JobFactory::CreateJob`: which messages make a job, and which leave the table of functions.
use socket_server_lib.Prelude.{
  lt→ltb, ℕ, zero, suc, ◌-◌, ◌^◌, ◌≤◌, ◌<◌, ◌≡◌, ◌↔◌, refl, sym, ap, ◌∙◌, Bool, true, false, Option,
  none, some, List, ◌++◌, arith, ltb, if◌then◌else◌, ◌>>=◌, length, get_elem?, take, drop, read32,
  copy_memory, zero_memory, copy_memory-zero_memory, length-zero_memory, read32-append,
  take_of_length_le, drop-append_of_le, length-append, length-drop, get_elem?_past, Bool-cases, inl,
  inr, dec_lt,
}
use socket_server_lib.PacketData.{packet_size}
use socket_server_lib.Job.{
  Job, JobKind, echo_job, req_token_job, udp_echo_job, construct, create_funcs, parse, make_job,
  call_create_func, create_job, beyond_last, req_message_size, header_size, echo_parameter_size,
}

-- `ReqMessage reqMsg{}` with the bytes of a message over its front.
unfoldable pub image : List ℕ → List ℕ
image sv = sv ++ zero_memory (req_message_size - length sv)

image_copied :
    (sv : List ℕ)
    → length sv ≤ req_message_size
    → copy_memory (zero_memory req_message_size) 0 sv (length sv) ≡ some (image sv)
unfolding image
image_copied sv h =
    copy_memory-zero_memory req_message_size sv (length sv) (omega arith) h
    ∙ ap (λ l. some (l ++ zero_memory (req_message_size - length sv)))
        (take_of_length_le (length sv) sv (omega arith))

pub length-image :
    (sv : List ℕ) → length sv ≤ req_message_size → length (image sv) ≡ req_message_size
unfolding image
length-image sv h = omega (
  arith,
  length-append {0} sv (zero_memory (req_message_size - length sv)),
  length-zero_memory (req_message_size - length sv),
)

word-image :
    (k : ℕ) (sv : List ℕ) {w : ℕ}
    → k ≤ length sv
    → read32 (drop k sv) ≡ some w
    → read32 (drop k (image sv)) ≡ some w
unfolding image
word-image k sv h e =
    ap read32 (drop-append_of_le k sv (zero_memory (req_message_size - length sv)) h)
    ∙ read32-append (drop k sv) (zero_memory (req_message_size - length sv)) e

-- A parameter is filled from the front of zeroed memory, unless too much is given.
filled_total :
    (view : List ℕ) (n : ℕ)
    → n ≤ length view
    → (r : Bool × List ℕ) × ((if ltb echo_parameter_size n
          then some (false, zero_memory echo_parameter_size)
          else (copy_memory (zero_memory echo_parameter_size) 0 view n >>= λ b. some (true, b)))
        ≡ some r)
filled_total view n h = elim (Bool-cases (ltb echo_parameter_size n)) [
  | inl long ↦ ((false, zero_memory echo_parameter_size), rw long)
  | inr short ↦ (
    (true, take n view ++ zero_memory (echo_parameter_size - n)),
    rw (short, copy_memory-zero_memory echo_parameter_size view n h (ground arith)),
  )
]

parse_total :
    (kind : JobKind) (view : List ℕ) (n : ℕ)
    → n ≤ length view
    → (r : Bool × List ℕ) × (parse kind (construct kind).param view n ≡ some r)
unfolding parse
parse_total echo_job view n h = filled_total view n h
parse_total req_token_job view n h = ((true, zero_memory 0), refl)
parse_total udp_echo_job view n h = filled_total view n h

make_job_total :
    (kind : JobKind) (view : List ℕ) (n : ℕ) (granted : Bool)
    → n ≤ length view
    → (r : Option Job) × (make_job kind view n granted ≡ some r)
unfolding make_job
make_job_total kind view n false h = (none, refl)
make_job_total kind view n true h =
    let (r, e) = parse_total kind view n h in
    (if r.0 then some (record (construct kind) { param = r.1 }) else none, rw e)

-- What `CreateJob` does with a message of a full header.
abbrev pub tried : ℕ → List ℕ → Bool → ℕ → ℕ → Option (Option Job)
tried client sv granted type number =
    if beyond_last type
    then some none
    else (call_create_func type (drop 16 (image sv)) (length sv - header_size) granted >>= λ made.
        some (elim made [
          | none ↦ none
          | some job ↦ some (record job { client = client; req_no = number })
        ]))

pub create_job-tried :
    (client : ℕ) (sv : List ℕ) (granted : Bool) {type number : ℕ}
    → header_size ≤ length sv
    → length sv ≤ req_message_size
    → read32 (drop 4 sv) ≡ some type
    → read32 (drop 8 sv) ≡ some number
    → create_job client sv granted ≡ tried client sv granted type number
unfolding create_job
create_job-tried client sv granted {type} {number} h k e f = rw (
  long_enough,
  fits,
  image_copied sv k,
  word-image 4 sv (omega arith) e,
  word-image 8 sv (omega arith) f,
)
  where
    long_enough : ltb (length sv) header_size ≡ false
    long_enough = ground arith

    fits : ltb req_message_size (length sv) ≡ false
    fits = ground arith

-- The table has a function for each type up to LAST, and nothing behind.
pub data TypeView (type : ℕ) : Type 0 where
  listed :
      (kind : JobKind) → get_elem? create_funcs type ≡ some (some kind) → type ≤ 2 → TypeView type
  behind : get_elem? create_funcs type ≡ none → 2 < type → TypeView type

pub type_view : (type : ℕ) → TypeView type
type_view zero = listed echo_job refl (omega arith)
type_view (suc zero) = listed req_token_job refl (omega arith)
type_view (suc (suc zero)) = listed udp_echo_job refl (omega arith)
type_view (suc (suc (suc n))) =
    behind (get_elem?_past create_funcs (suc (suc (suc n))) (omega arith)) (omega arith)

pub call_total :
    (type : ℕ) (view : List ℕ) (n : ℕ) (granted : Bool)
    → n ≤ length view
    → type ≤ 2
    → (r : Option Job) × (call_create_func type view n granted ≡ some r)
unfolding call_create_func
call_total type view n granted h k = elim (type_view type) [
  | listed kind e b ↦
      let (r, f) = make_job_total kind view n granted h in (r, rw (call_create_func, e) f)
  | behind e b ↦ absurd (omega arith)
]

pub call_past :
    (type : ℕ) (view : List ℕ) (n : ℕ) (granted : Bool)
    → 2 < type
    → call_create_func type view n granted ≡ none
unfolding call_create_func
call_past type view n granted k =
    rw (call_create_func, get_elem?_past create_funcs type (omega arith))

-- For a message with a header and of at most PACKET_SIZE bytes, CreateJob leaves the memory that it
-- may use exactly when the type in the header is negative, read as an `int32_t`.
pub create_job-none_iff :
    (client : ℕ) (sv : List ℕ) (granted : Bool) {type number : ℕ}
    → header_size ≤ length sv
    → length sv ≤ packet_size
    → read32 (drop 4 sv) ≡ some type
    → read32 (drop 8 sv) ≡ some number
    → (create_job client sv granted ≡ none) ↔ (2 ^ 31 ≤ type)
create_job-none_iff client sv granted {type} {number} h k e f = (
  λ fault. elim (dec_lt type (2 ^ 31)) [
    | yes small ↦ absurd (no_fault small (sym same ∙ fault))
    | no negative ↦ omega (arith, negative)
  ],
  λ negative.
      same
      ∙ rw (
        not_beyond negative,
        call_past type (drop 16 (image sv)) (length sv - header_size) granted
            (omega (arith, negative)),
      ),
)
  where
    same : create_job client sv granted ≡ tried client sv granted type number
    same = create_job-tried client sv granted h (omega arith) e f

    not_beyond : 2 ^ 31 ≤ type → beyond_last type ≡ false
    not_beyond n = ground (arith, n)

    is_beyond : 2 < type → type < 2 ^ 31 → beyond_last type ≡ true
    is_beyond a b = ground (arith, a, b)

    not_above : type ≤ 2 → beyond_last type ≡ false
    not_above a = ground (arith, a)

    room : length sv - header_size ≤ length (drop 16 (image sv))
    room = omega (arith, length-drop {0} 16 (image sv), length-image sv (omega arith))

    no_fault : type < 2 ^ 31 → tried client sv granted type number ≡ none → ⊥
    no_fault small fault = elim (dec_lt 2 type) [
      | yes big ↦ let p = (rw (is_beyond big small) at fault) in cc
      | no known ↦
          let (r, c) =
            call_total type (drop 16 (image sv)) (length sv - header_size) granted room
              (omega (arith, known)) in
          let p = (rw (not_above (omega (arith, known)), c) at fault) in cc
    ]

-- A type above LAST makes no job, whatever the pool grants.
pub create_job-unknown :
    (client : ℕ) (sv : List ℕ) (granted : Bool) {type number : ℕ}
    → header_size ≤ length sv
    → length sv ≤ req_message_size
    → read32 (drop 4 sv) ≡ some type
    → read32 (drop 8 sv) ≡ some number
    → 2 < type
    → type < 2 ^ 31
    → create_job client sv granted ≡ some none
create_job-unknown client sv granted {type} {number} h k e f big small =
    create_job-tried client sv granted h k e f ∙ rw beyond
  where
    beyond : beyond_last type ≡ true
    beyond = ground (arith, big, small)

-- `Parse` of the echo job refuses a view that is longer than its parameter.
call_create_func-long :
    (view : List ℕ) (n : ℕ) (granted : Bool)
    → echo_parameter_size < n
    → call_create_func 0 view n granted ≡ some none
unfolding call_create_func make_job parse
call_create_func-long view n false h = refl
call_create_func-long view n true h = rw (lt→ltb echo_parameter_size n h) refl

-- An echo request of more than 96 bytes and at most PACKET_SIZE makes no job, so a payload of
-- `sizeof(EchoParameter)` bytes behind the header and the size is refused.
pub create_job-echo_long :
    (client : ℕ) (sv : List ℕ) (granted : Bool) {number : ℕ}
    → 96 < length sv
    → length sv ≤ packet_size
    → read32 (drop 4 sv) ≡ some 0
    → read32 (drop 8 sv) ≡ some number
    → create_job client sv granted ≡ some none
create_job-echo_long client sv granted {number} h k e f =
    create_job-tried client sv granted {type = 0} {number = number} (omega (arith, h))
      (omega (arith, k)) e f
    ∙ rw (
        call_create_func-long (drop 16 (image sv)) (length sv - header_size) granted
          (omega (arith, h)))
