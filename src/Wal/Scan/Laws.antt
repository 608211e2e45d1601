-- ===== src/Wal/Scan/Laws.antt =====
-- A segment that holds whole frames and a torn tail, as an append that was cut off leaves it.
use nesso.Base.{
  ℕ, ◌+◌, ◌≤◌, ◌<◌, ◌≡◌, refl, ap, ◌∙◌, some, List, [], ◌∷◌, ◌++◌, length, take, take-append,
  take-append_le, take-take, get_or, arith, append-nil, IsU32,
}
use nesso.Base.Bytes.{from_be_bytes, slice-take}
use nesso.Record.{Record, IsRecord, encode, decode, header_size, magic_byte, max_payload_size}
use nesso.Record.Frame.{length-encode}
use nesso.Record.RoundTrip.{decode-encode}
use nesso.Record.Refusals.{payload_len-encode}
use nesso.Wal.Scan.{Round, read_frame, extract_payload_len}

-- A record that the log can hold and read back.
pub record Fits (r : Record) : Type 0 where
  pub is_record : IsRecord r
  pub small : length r.payload ≤ max_payload_size

module _ (crc32 : List ℕ → ℕ) where
  -- The bytes of whole frames.
  abbrev pub encodings : List Record → List ℕ
  encodings [] = []
  encodings (r ∷ rs) = encode crc32 r ++ encodings rs

  -- Records with the offsets of their frames.
  abbrev pub placed : ℕ → List Record → List (ℕ × Record)
  placed offset [] = []
  placed offset (r ∷ rs) = (offset, r) ∷ placed (offset + length (encode crc32 r)) rs

  pub header-encode :
      (r : Record)
      → length r.payload ≤ max_payload_size
      → (extract_payload_len (take header_size (encode crc32 r)) ≡ length r.payload)
        × (get_or (take header_size (encode crc32 r)) 0 0 ≡ magic_byte)
  unfolding extract_payload_len
  header-encode r h = (
    ap from_be_bytes (slice-take 15 19 19 (encode crc32 r) (omega arith))
        ∙ payload_len-encode crc32 r h,
    unfold encode in refl,
  )

  -- A tail that a crash left of a frame stops the loop.
  pub read_frame-torn :
      (r : Record) (k file_len offset : ℕ)
      → length r.payload ≤ max_payload_size
      → k < length (encode crc32 r)
      → file_len ≡ offset + k
      → read_frame crc32 file_len offset (take k (encode crc32 r)) ≡ Round.stop
  unfolding read_frame
  read_frame-torn r k file_len offset h l e =
      ground (arith, take-take 19 k (encode crc32 r), header-encode r h, length-encode crc32 r)

  module _ (crc32_word : (bs : List ℕ) → IsU32 (crc32 bs)) where
    -- A whole frame is read, whatever follows it.
    pub read_frame-encode :
        (r : Record) (rest : List ℕ) (file_len offset : ℕ)
        → Fits r
        → offset + length (encode crc32 r) ≤ file_len
        → read_frame crc32 file_len offset (encode crc32 r ++ rest)
          ≡ Round.frame (length (encode crc32 r)) (some r)
    unfolding read_frame
    read_frame-encode r rest file_len offset v h = ground (
      arith,
      take-append_le 19 (encode crc32 r) rest,
      header-encode r v.small,
      length-encode crc32 r,
      ap (decode crc32) (
          take-append (header_size + length r.payload) (encode crc32 r) rest
            (length-encode crc32 r)),
      ap (decode crc32) (append-nil (encode crc32 r)),
      decode-encode crc32 crc32_word r [] v.is_record v.small,
    )
