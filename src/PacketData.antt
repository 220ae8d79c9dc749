-- ===== src/PacketData.antt =====
-- IOCP_TCP+UDP/RacingGameServer/RacingGameServer/PacketData.cpp and .hpp: one outgoing message in a
-- block of its own, behind a header of three 32-bit words.
pub mod Wire
pub mod Storage
mod Tests
use socket_server_lib.Prelude.{
  ℕ, ◌+◌, ◌-◌, ◌%◌, ◌^◌, ◌≤◌, ◌<◌, ◌≡◌, Bool, ◌||◌, true, false, Option, none, some, List, [], ltb,
  leb, ◌==◌, if◌then◌else◌, ◌>>=◌, length, take, add32, le32, copy_memory, move_down,
}

-- PACKET_SIZE and `sizeof(InfoHeader)`
abbrev pub packet_size : ℕ
packet_size = 8192

abbrev pub info_header_size : ℕ
info_header_size = 12

pub data InfoCode : Type 0 where
  req_success req_failed not_finished nullptr_on_funcptr other_err not_my_turn : InfoCode

abbrev pub code_value : InfoCode → ℕ
code_value req_success = 0
code_value req_failed = 1
code_value not_finished = 2
code_value nullptr_on_funcptr = 3
code_value other_err = 4
code_value not_my_turn = 5

-- `buf` is the block that `m_pData` points to, and `[]` for nullptr (no block has length 0).
pub record PacketData : Type 0 where
  pub buf : List ℕ
  pub size : ℕ
  pub capacity : ℕ

pub new : PacketData
new = record { buf = []; size = 0; capacity = 0 }

pub clear : PacketData → PacketData
clear p = record p { size = 0 }

-- `block` is what `new(std::nothrow) char[capacity_]` gives.
pub allocate : PacketData → ℕ → Option (List ℕ) → Option (Bool × PacketData)
allocate p capacity none = some (false, p)
allocate p capacity (some block) =
    if capacity == 0
    then some (false, p)
    else if length p.buf == 0 || p.size == 0
    then some (true, record { buf = block; size = 0; capacity = capacity })
    else (let n : ℕ = (if ltb capacity p.size then capacity else p.size) in
        copy_memory block 0 p.buf n >>= λ b.
        some (true, record { buf = b; size = n; capacity = capacity }))

-- The size stays as it was.
pub free : PacketData → PacketData
free p = record p { buf = [] }

-- The first `n` bytes go, and the others come to the front.
pub pop : PacketData → ℕ → Option PacketData
pop p n =
    let m : ℕ = (if ltb n p.size then p.size - n else 0) in
    if m == 0
    then some (record p { size = 0 })
    else if leb (n + m) (length p.buf)
    then some (record p { buf = move_down p.buf 0 n m; size = m })
    else none

-- One `CopyMemory(m_pData + m_Size, …); m_Size += …;`
pub append : PacketData → List ℕ → ℕ → Option PacketData
append p source n =
    copy_memory p.buf p.size source n >>= λ b. some (record p { buf = b; size = add32 p.size n })

-- The three header words that every `Init` writes.
pub write_header : PacketData → ℕ → ℕ → ℕ → Option PacketData
write_header p total code req_no = append (record p { size = 0 }) (le32 total) 4 >>= λ a.
    append a (le32 code) 4 >>= λ b. append b (le32 req_no) 4

-- `Init(infoCode_, reqNo_, const char* pData_, uint32_t dataSize_)`
pub init_bytes : PacketData → InfoCode → ℕ → List ℕ → ℕ → Option (Bool × PacketData)
init_bytes p code req_no source n =
    let total : ℕ = add32 n info_header_size in
    if ltb packet_size total
    then some (false, p)
    else (write_header p total (code_value code) req_no >>= λ a.
        if n == 0 then some (true, a) else (append a source n >>= λ b. some (true, b)))

-- `Init(infoCode_, reqNo_, std::string& strData_)`: the length is cut to a `uint32_t`.
pub init_string : PacketData → InfoCode → ℕ → List ℕ → Option (Bool × PacketData)
init_string p code req_no text = init_bytes p code req_no text (length text % 2 ^ 32)

-- `Init<T>(infoCode_, reqNo_, T& objData_)` over the bytes of the object.
unfoldable pub init_object : PacketData → InfoCode → ℕ → List ℕ → Option (Bool × PacketData)
init_object p code req_no image = init_bytes p code req_no image (length image)

-- `Init(infoCode_, reqNo_)`
pub init_empty : PacketData → InfoCode → ℕ → Option (Bool × PacketData)
init_empty p code req_no =
    write_header p info_header_size (code_value code) req_no >>= λ a. some (true, a)

pub get_size : PacketData → ℕ
get_size p = p.size

-- What goes on the wire: `GetSize()` bytes from `GetData()`.
abbrev pub bytes : PacketData → List ℕ
bytes p = take p.size p.buf

pub record IsValid (p : PacketData) : Type 0 where
  pub allocated : length p.buf ≡ p.capacity
  pub fits : p.size ≤ p.capacity
  pub word : p.capacity < 2 ^ 32
