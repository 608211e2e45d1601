-- ===== src/Wal/Scan.antt =====
-- storage/wal.rs: the loops that walk over the frames of a segment. A segment is its bytes; `rest`
-- is what stands behind the cursor, which is at `offset` of `file_len` bytes.
pub mod Laws
pub mod Recovery
use nesso.Base.{
  ℕ, zero, suc, ◌+◌, Option, none, some, List, [], ◌∷◌, length, take, drop, get_or, ltb, not, ◌==◌,
  if◌then◌else◌,
}
use nesso.Base.Bytes.{from_be_bytes, slice}
use nesso.Record.{Record, decode, header_size, magic_byte, max_payload_size}

-- `extract_payload_len`
unfoldable pub extract_payload_len : List ℕ → ℕ
extract_payload_len header = from_be_bytes (slice 15 19 header)

-- One round of such a loop: it stops, or it reads a frame, which decodes or does not.
pub data Round : Type 0 where
  stop : Round
  frame : (frame_len : ℕ) → Option Record → Round

module _ (crc32 : List ℕ → ℕ) where
  unfoldable pub read_frame : ℕ → ℕ → List ℕ → Round
  read_frame file_len offset rest =
      let header = take header_size rest in
      let payload_len = extract_payload_len header in
      let frame_len = header_size + payload_len in
      if ltb file_len (offset + header_size)
      then Round.stop
      else if not (get_or header 0 0 == magic_byte)
      then Round.stop
      else if ltb max_payload_size payload_len
      then Round.stop
      else if ltb file_len (offset + frame_len)
      then Round.stop
      else Round.frame frame_len (decode crc32 (take frame_len rest))

  -- The loop of `Wal::open`: the end of the last frame before the first that is torn or corrupt.
  unfoldable pub valid_offset : ℕ → ℕ → ℕ → List ℕ → ℕ
  valid_offset zero file_len offset rest = offset
  valid_offset (suc fuel) file_len offset rest = elim (read_frame file_len offset rest) [
    | Round.stop ↦ offset
    | Round.frame n none ↦ offset
    | Round.frame n (some r) ↦ valid_offset fuel file_len (offset + n) (drop n rest)
  ]

  -- `WalIteratorAll::next` over one segment: a frame that does not decode is passed over.
  unfoldable pub frames_from : ℕ → ℕ → ℕ → List ℕ → List (ℕ × Record)
  frames_from zero file_len offset rest = []
  frames_from (suc fuel) file_len offset rest = elim (read_frame file_len offset rest) [
    | Round.stop ↦ []
    | Round.frame n none ↦ frames_from fuel file_len (offset + n) (drop n rest)
    | Round.frame n (some r) ↦ (offset, r) ∷ frames_from fuel file_len (offset + n) (drop n rest)
  ]

  -- A frame has 19 bytes at least, so a round for each byte is enough.
  unfoldable pub valid_prefix : List ℕ → ℕ
  valid_prefix raw = valid_offset (suc (length raw)) (length raw) 0 raw

  unfoldable pub frames : List ℕ → List (ℕ × Record)
  frames raw = frames_from (suc (length raw)) (length raw) 0 raw
