-- ===== src/Record.antt =====
-- storage/record.rs: the frame in which the write-ahead log holds an event of a task.
pub mod Frame
pub mod RoundTrip
pub mod Refusals
mod Runs
use nesso.Base.{
  ℕ, ◌+◌, ◌-◌, ◌*◌, ◌%◌, ◌^◌, ◌<◌, Bool, true, false, Option, none, some, List, [], ◌∷◌, ◌++◌,
  length, leb, ◌==◌, get_or, arith, IsU8, IsU64, All, if◌then◌else◌, add_u64,
}
use nesso.Base.Bytes.{to_be_bytes, from_be_bytes, slice, IsByte}

pub data OpType : Type 0 where
  created leased acked nacked expired dead_lettered : OpType

pub record Record : Type 0 where
  pub id : ℕ
  pub op_type : OpType
  pub priority : ℕ
  pub payload : List ℕ

abbrev pub magic_byte : ℕ
magic_byte = 0x4e

abbrev pub header_size : ℕ
header_size = 19

abbrev pub max_payload_size : ℕ
max_payload_size = 64 * 1024 * 1024

-- `self.op_type as u8`
abbrev pub op_code : OpType → ℕ
op_code OpType.created = 0
op_code OpType.leased = 1
op_code OpType.acked = 2
op_code OpType.nacked = 3
op_code OpType.expired = 4
op_code OpType.dead_lettered = 5

-- The `match data[5]` of `decode`.
abbrev pub op_of_code : ℕ → Option OpType
op_of_code c =
    if c == 0
    then some OpType.created
    else if c == 1
    then some OpType.leased
    else if c == 2
    then some OpType.acked
    else if c == 3
    then some OpType.nacked
    else if c == 4
    then some OpType.expired
    else if c == 5
    then some OpType.dead_lettered
    else none

infixl 5 ◌>>=◌ ◌>>◌
abbrev pub ◌>>=◌ {ℓ κ} : {A : Type ℓ} {B : Type κ} → Option A → (A → Option B) → Option B
none >>= f = none
some a >>= f = f a

abbrev pub ◌>>◌ {ℓ} : {B : Type ℓ} → Option (Unit {0}) → Option B → Option B
m >> k = m >>= λ _. k

abbrev pub guard : Bool → Option (Unit {0})
guard true = some tt
guard false = none

-- `a.checked_add(b)` on usize.
abbrev pub checked_add : ℕ → ℕ → Option ℕ
checked_add a b = if leb (2 ^ 64) (a + b) then none else some (a + b)

-- What the checksum covers: the buffer of `encode` from `start_of_data` on.
abbrev pub frame_body : Record → List ℕ
frame_body r =
    op_code r.op_type
    ∷ r.priority
    ∷ (to_be_bytes 8 r.id ++ (to_be_bytes 4 (length r.payload % 2 ^ 32) ++ r.payload))

-- A value that a Rust `Record` can hold.
pub record IsRecord (r : Record) : Type 0 where
  pub id_fits : IsU64 r.id
  pub priority_fits : IsU8 r.priority
  pub payload_bytes : All IsByte r.payload

-- `crc32` stands for `crc32fast::Hasher` over the whole slice.
module _ (crc32 : List ℕ → ℕ) where
  unfoldable pub encode : Record → List ℕ
  encode r = magic_byte ∷ (to_be_bytes 4 (crc32 (frame_body r)) ++ frame_body r)

  unfoldable pub decode : List ℕ → Option Record
  decode bytes = do
    guard (leb header_size (length bytes))
    guard (get_or bytes 0 0 == magic_byte)
    let payload_len = from_be_bytes (slice 15 19 bytes)
    guard (leb payload_len max_payload_size)
    total_len ← checked_add header_size payload_len
    guard (leb total_len (length bytes))
    let expected_checksum = from_be_bytes (slice 1 5 bytes)
    guard (crc32 (slice 5 total_len bytes) == expected_checksum)
    op_type ← op_of_code (get_or bytes 5 0)
    some (record {
      id = from_be_bytes (slice 7 15 bytes);
      op_type = op_type;
      priority = get_or bytes 6 0;
      payload = slice 19 total_len bytes;
    })
