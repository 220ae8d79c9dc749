-- ===== src/PacketData/Wire.antt =====
-- What a packet carries on the wire, and how a peer reads it back.
use socket_server_lib.Prelude.{
  ℕ, zero, suc, ◌+◌, ◌%◌, ◌^◌, ◌≤◌, ◌<◌, ◌≡◌, ◌↔◌, refl, ap, ◌∙◌, true, false, Option, none, some,
  List, [], ◌++◌, arith, ltb, ◌>>=◌, dec_lt, length, take, drop, add32, ◌==◌, length-take,
  length-append, length-copy_memory, take-copy_memory, copy_memory_inside, copy_memory_past, le32,
  read32,
}
use socket_server_lib.PacketData.{
  PacketData, InfoCode, IsValid, bytes, code_value, packet_size, append, write_header, init_bytes,
  get_size,
}

-- The bytes of a header.
abbrev pub header : ℕ → ℕ → ℕ → List ℕ
header total code req_no = le32 total ++ (le32 code ++ le32 req_no)

-- `q` is `p` with the wire bytes `front`, in the same block.
pub record Holds (p q : PacketData) (front : List ℕ) : Type 0 where
  pub valid : IsValid q
  pub same_capacity : q.capacity ≡ p.capacity
  pub sent : bytes q ≡ front
  pub length_sent : q.size ≡ length front

pub append-Holds :
    {p q : PacketData} {front : List ℕ} (source : List ℕ) (n : ℕ)
    → Holds p q front
    → n ≤ length source
    → length front + n ≤ p.capacity
    → (r : PacketData) × (append q source n ≡ some r) × Holds p r (front ++ take n source)
unfolding append
append-Holds {p} {q} {front} source n h k fits =
    let v = h.valid in
    let wrap : (q.size + n) % 2 ^ 32 ≡ q.size + n = omega arith in
    let e = copy_memory_inside q.buf q.size source n (omega arith) k in
    (
      record q {
        buf = take q.size q.buf ++ (take n source ++ drop (q.size + n) q.buf);
        size = add32 q.size n;
      },
      rw e,
      record {
        valid = ground (arith, length-copy_memory q.buf q.size source n e);
        same_capacity = h.same_capacity;
        sent =
            rw wrap
              (take-copy_memory q.buf q.size source n e ∙ ap (λ l. l ++ take n source) h.sent);
        length_sent =
            omega (arith, length-append {0} front (take n source), length-take {0} n source);
      },
    )

pub write_header-Holds :
    {p : PacketData} (total code req_no : ℕ)
    → IsValid p
    → 12 ≤ p.capacity
    → (q : PacketData) × (write_header p total code req_no ≡ some q)
      × Holds p q (header total code req_no)
unfolding write_header
write_header-Holds {p} total code req_no v h =
    let (a, ea, ha) = append-Holds {p = p} (le32 total) 4 blank (omega arith) (omega arith) in
    let (b, eb, hb) = append-Holds {p = p} (le32 code) 4 ha (omega arith) (omega arith) in
    let (c, ec, hc) = append-Holds {p = p} (le32 req_no) 4 hb (omega arith) (omega arith) in
    (c, rw (ea, eb, ec), hc)
  where
    blank : Holds p (record p { size = 0 }) []
    blank = record { valid = ground arith; same_capacity = refl; sent = refl; length_sent = refl }

-- `Init` with a payload that fits writes the header, whose first word is the size of the whole
-- packet, and the payload behind it.
pub init_bytes-Holds :
    {p : PacketData} (code : InfoCode) (req_no : ℕ) (source : List ℕ) (n : ℕ)
    → IsValid p
    → packet_size ≤ p.capacity
    → n ≤ length source
    → n + 12 ≤ packet_size
    → (q : PacketData) × (init_bytes p code req_no source n ≡ some (true, q))
      × Holds p q (header (n + 12) (code_value code) req_no ++ take n source)
unfolding init_bytes
init_bytes-Holds {p} code req_no source zero v c h k =
    let (a, ea, ha) = write_header-Holds {p = p} 12 (code_value code) req_no v (omega arith) in
    (a, rw ea, ha)
init_bytes-Holds {p} code req_no source (suc n) v c h k =
    let (a, ea, ha) =
      write_header-Holds {p = p} (suc n + 12) (code_value code) req_no v (omega arith) in
    let (b, eb, hb) = append-Holds {p = p} source (suc n) ha h (omega arith) in
    (b, rw (wrap, small, ea, nonempty, eb), hb)
  where
    wrap : (suc n + 12) % 2 ^ 32 ≡ suc n + 12
    wrap = omega arith

    small : ltb packet_size (suc n + 12) ≡ false
    small = ground arith

    nonempty : (suc n == 0) ≡ false
    nonempty = ground arith

-- The payload is what the peer finds behind the header that `read_info` takes apart.
pub read_info : List ℕ → Option (ℕ × ℕ × ℕ × List ℕ)
read_info wire = read32 wire >>= λ total. read32 (drop 4 wire) >>= λ code.
    read32 (drop 8 wire) >>= λ req_no. some (total, code, req_no, drop 12 wire)

read_info-header :
    (total code req_no : ℕ) (payload : List ℕ)
    → total < 2 ^ 32
    → code < 2 ^ 32
    → req_no < 2 ^ 32
    → read_info (header total code req_no ++ payload) ≡ some (total, code, req_no, payload)
unfolding read_info
read_info-header total code req_no payload h k m = ground arith

code_value-lt : (code : InfoCode) → code_value code < 2 ^ 32
code_value-lt code = ground arith

-- A packet that `Init` fills with `n` bytes, header and all within PACKET_SIZE, is read back by the
-- peer as its total size, which is also what `GetSize` says, the code, the request's number and
-- those `n` bytes.
pub read_info-init_bytes :
    {p : PacketData} (code : InfoCode) (req_no : ℕ) (source : List ℕ) (n : ℕ)
    → IsValid p
    → packet_size ≤ p.capacity
    → n ≤ length source
    → n + 12 ≤ packet_size
    → req_no < 2 ^ 32
    → (q : PacketData) × (init_bytes p code req_no source n ≡ some (true, q))
      × (read_info (bytes q) ≡ some (n + 12, code_value code, req_no, take n source))
      × (get_size q ≡ n + 12)
      × IsValid q
unfolding get_size
read_info-init_bytes {p} code req_no source n v c h k r =
    let (q, e, holds) = init_bytes-Holds {p = p} code req_no source n v c h k in
    (
      q,
      e,
      rw holds.sent (
          read_info-header (n + 12) (code_value code) req_no (take n source) (omega arith)
            (code_value-lt code) r),
      omega (
        arith,
        holds.length_sent,
        length-append {0} (header (n + 12) (code_value code) req_no) (take n source),
        length-take {0} n source,
      ),
      holds.valid,
    )

-- `Init` refuses what does not fit, and leaves the packet as it was.
pub init_bytes-too_big :
    (p : PacketData) (code : InfoCode) (req_no : ℕ) (source : List ℕ) (n : ℕ)
    → packet_size < n + 12
    → n + 12 < 2 ^ 32
    → init_bytes p code req_no source n ≡ some (false, p)
unfolding init_bytes
init_bytes-too_big p code req_no source n h k = ground arith

init_bytes-wraps :
    {p : PacketData} (code : InfoCode) (req_no : ℕ) (source : List ℕ) (n : ℕ)
    → IsValid p
    → packet_size ≤ p.capacity
    → n < 2 ^ 32
    → 2 ^ 32 ≤ n + 12
    → init_bytes p code req_no source n ≡ none
unfolding init_bytes append
init_bytes-wraps {p} code req_no source n v c h k =
    let (a, ea, ha) =
      write_header-Holds {p = p} ((n + 12) % 2 ^ 32) (code_value code) req_no v (omega arith) in
    let w = ha.valid in
    rw (
      small,
      ea,
      nonempty,
      copy_memory_past a.buf a.size source n
          (omega (arith, w.allocated, ha.same_capacity, ha.length_sent)),
    )
  where
    small : ltb packet_size ((n + 12) % 2 ^ 32) ≡ false
    small = ground arith

    nonempty : (n == 0) ≡ false
    nonempty = ground arith

-- `Init` leaves its block exactly when the payload and the header add up to 2 ^ 32 or more: the sum
-- then wraps below PACKET_SIZE.
pub init_bytes-none_iff :
    {p : PacketData} (code : InfoCode) (req_no : ℕ) (source : List ℕ) (n : ℕ)
    → IsValid p
    → packet_size ≤ p.capacity
    → n ≤ length source
    → n < 2 ^ 32
    → (init_bytes p code req_no source n ≡ none) ↔ (2 ^ 32 ≤ n + 12)
init_bytes-none_iff {p} code req_no source n v c h k = (
  λ e. elim (dec_lt (n + 12) (2 ^ 32)) [
    | yes small ↦ elim (dec_lt packet_size (n + 12)) [
      | yes big ↦ cc (init_bytes-too_big p code req_no source n big small, e)
      | no fits ↦
          let w = init_bytes-Holds {p = p} code req_no source n v c h (omega arith) in cc (w.1, e)
    ]
    | no wraps ↦ omega arith
  ],
  λ w. init_bytes-wraps code req_no source n v c k w,
)

pub get_size_lem : (p : PacketData) → get_size p ≡ p.size
unfolding get_size
get_size_lem p = refl
