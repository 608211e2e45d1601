-- ===== src/Record/Frame.antt =====
-- What `decode` accepts, as a conjunction: each early return of the source is one of the facts.
use nesso.Base.{ℕ, ◌+◌, ◌≤◌, ◌≡◌, some, List, length, get_or, arith}
use nesso.Base.Bytes.{from_be_bytes, slice}
use nesso.Record.{Record, encode, decode, header_size, max_payload_size, magic_byte, op_of_code}

module _ (crc32 : List ℕ → ℕ) where
  pub length-encode : (r : Record) → length (encode crc32 r) ≡ header_size + length r.payload
  unfolding encode
  length-encode r = omega arith

  pub record Decodes (bytes : List ℕ) (n : ℕ) (r : Record) : Type 0 where
    pub header_present : header_size ≤ length bytes
    pub magic : get_or bytes 0 0 ≡ magic_byte
    pub payload_len : from_be_bytes (slice 15 19 bytes) ≡ n
    pub bounded : n ≤ max_payload_size
    pub frame_present : header_size + n ≤ length bytes
    pub checksum : crc32 (slice 5 (header_size + n) bytes) ≡ from_be_bytes (slice 1 5 bytes)
    pub op : op_of_code (get_or bytes 5 0) ≡ some r.op_type
    pub priority : r.priority ≡ get_or bytes 6 0
    pub id : r.id ≡ from_be_bytes (slice 7 15 bytes)
    pub payload : r.payload ≡ slice 19 (header_size + n) bytes

  pub decode_of_Decodes :
      (bytes : List ℕ) (n : ℕ) (r : Record) → Decodes bytes n r → decode crc32 bytes ≡ some r
  unfolding decode
  decode_of_Decodes bytes n r d = ground arith

  pub Decodes-of_decode :
      (bytes : List ℕ) (r : Record)
      → decode crc32 bytes ≡ some r
      → Decodes bytes (from_be_bytes (slice 15 19 bytes)) r
  unfolding decode
  Decodes-of_decode bytes r e = ground arith
