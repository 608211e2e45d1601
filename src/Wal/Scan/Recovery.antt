-- ===== src/Wal/Scan/Recovery.antt =====
-- What the loops of recovery find in a segment.
use nesso.Base.{
  ℕ, zero, suc, ◌+◌, ◌≤◌, ◌<◌, ◌≡◌, refl, ap, ◌∙◌, List, [], ◌∷◌, ◌++◌, length, length-append, take,
  drop-append, All, arith, append_assoc, IsU32, length-take,
}
use nesso.Record.{Record, encode, max_payload_size}
use nesso.Record.Frame.{length-encode}
use nesso.Wal.Scan.{Round, read_frame, valid_offset, frames_from, valid_prefix, frames}
use nesso.Wal.Scan.Laws.{Fits, encodings, placed, read_frame-torn, read_frame-encode}

module _ (crc32 : List ℕ → ℕ) (crc32_word : (bs : List ℕ) → IsU32 (crc32 bs)) where
  valid_offset-encode :
      (r : Record) (rest : List ℕ) (fuel file_len offset : ℕ)
      → Fits r
      → offset + length (encode crc32 r) ≤ file_len
      → valid_offset crc32 (suc fuel) file_len offset (encode crc32 r ++ rest)
        ≡ valid_offset crc32 fuel file_len (offset + length (encode crc32 r)) rest
  unfolding valid_offset
  valid_offset-encode r rest fuel file_len offset v h = ground (
    arith,
    read_frame-encode crc32 crc32_word r rest file_len offset v h,
    drop-append (length (encode crc32 r)) (encode crc32 r) rest refl,
  )

  frames_from-encode :
      (r : Record) (rest : List ℕ) (fuel file_len offset : ℕ)
      → Fits r
      → offset + length (encode crc32 r) ≤ file_len
      → frames_from crc32 (suc fuel) file_len offset (encode crc32 r ++ rest)
        ≡ (offset, r) ∷ frames_from crc32 fuel file_len (offset + length (encode crc32 r)) rest
  unfolding frames_from
  frames_from-encode r rest fuel file_len offset v h = ground (
    arith,
    read_frame-encode crc32 crc32_word r rest file_len offset v h,
    drop-append (length (encode crc32 r)) (encode crc32 r) rest refl,
  )

  -- Where the loops stand: `tail` stops them, behind the frames of `rs`.
  record Layout (rs : List Record) (tail : List ℕ) (fuel file_len offset : ℕ) : Type 0 where
    fit : All Fits rs
    total : offset + length (encodings crc32 rs) + length tail ≡ file_len
    enough : length (encodings crc32 rs) + length tail < fuel
    stops : (n : ℕ) → n + length tail ≡ file_len → read_frame crc32 file_len n tail ≡ Round.stop

  Layout-rest :
      {r : Record} {rs : List Record} {tail : List ℕ} {fuel file_len offset : ℕ}
      → Layout (r ∷ rs) tail (suc fuel) file_len offset
      → Layout rs tail fuel file_len (offset + length (encode crc32 r))
        × (offset + length (encode crc32 r) ≤ file_len)
  Layout-rest {r} {rs} l =
      let split = length-append (encode crc32 r) (encodings crc32 rs) in
      let some_bytes = length-encode crc32 r in
      (
        record {
          fit = l.fit.1;
          total = omega (arith, l.total, split);
          enough = omega (arith, l.enough, split, some_bytes);
          stops = l.stops;
        },
        omega (arith, l.total, split),
      )

  -- The end that `Wal::open` finds is the end of the whole frames.
  valid_offset-encodings :
      (rs : List Record) (tail : List ℕ) (fuel file_len offset : ℕ)
      → Layout rs tail fuel file_len offset
      → valid_offset crc32 fuel file_len offset (encodings crc32 rs ++ tail)
        ≡ offset + length (encodings crc32 rs)
  unfolding valid_offset
  valid_offset-encodings rs tail zero file_len offset l = absurd (omega (arith, l.enough))
  valid_offset-encodings [] tail (suc fuel) file_len offset l =
      ground (arith, l.stops offset (omega (arith, l.total)))
  valid_offset-encodings (r ∷ rs) tail (suc fuel) file_len offset l =
      let (l', room) = Layout-rest l in
      ap (valid_offset crc32 (suc fuel) file_len offset)
        (append_assoc (encode crc32 r) (encodings crc32 rs) tail)
      ∙ valid_offset-encode r (encodings crc32 rs ++ tail) fuel file_len offset l.fit.0 room
      ∙ valid_offset-encodings rs tail fuel file_len (offset + length (encode crc32 r)) l'
      ∙ omega (arith, length-append (encode crc32 r) (encodings crc32 rs))

  frames_from-encodings :
      (rs : List Record) (tail : List ℕ) (fuel file_len offset : ℕ)
      → Layout rs tail fuel file_len offset
      → frames_from crc32 fuel file_len offset (encodings crc32 rs ++ tail) ≡ placed crc32 offset rs
  unfolding frames_from
  frames_from-encodings rs tail zero file_len offset l = absurd (omega (arith, l.enough))
  frames_from-encodings [] tail (suc fuel) file_len offset l =
      ground (arith, l.stops offset (omega (arith, l.total)))
  frames_from-encodings (r ∷ rs) tail (suc fuel) file_len offset l =
      let (l', room) = Layout-rest l in
      ap (frames_from crc32 (suc fuel) file_len offset)
        (append_assoc (encode crc32 r) (encodings crc32 rs) tail)
      ∙ frames_from-encode r (encodings crc32 rs ++ tail) fuel file_len offset l.fit.0 room
      ∙ ap (◌∷◌ (offset, r))
          (frames_from-encodings rs tail fuel file_len (offset + length (encode crc32 r)) l')

  torn-Layout :
      (rs : List Record) (r : Record) (k : ℕ)
      → All Fits rs
      → length r.payload ≤ max_payload_size
      → k < length (encode crc32 r)
      → let raw = encodings crc32 rs ++ take k (encode crc32 r) in
        Layout rs (take k (encode crc32 r)) (suc (length raw)) (length raw) 0
  torn-Layout rs r k h small l =
      let tail = length-take k (encode crc32 r) in
      let split = length-append (encodings crc32 rs) (take k (encode crc32 r)) in
      record {
        fit = h;
        total = omega (arith, split);
        enough = omega (arith, split);
        stops = λ n e. read_frame-torn crc32 r k _ n small l (omega (arith, tail, e));
      }

  -- A segment of whole frames of records that fit, whose last append, of at most the maximal
  -- payload, was cut off at any byte, if checksums have 32 bits: recovery ends the segment right
  -- behind the whole frames, and reads exactly their records, at their offsets.
  pub recovers_torn :
      (rs : List Record) (r : Record) (k : ℕ)
      → All Fits rs
      → length r.payload ≤ max_payload_size
      → k < length (encode crc32 r)
      → let raw = encodings crc32 rs ++ take k (encode crc32 r) in
        (valid_prefix crc32 raw ≡ length (encodings crc32 rs))
        × (frames crc32 raw ≡ placed crc32 0 rs)
  unfolding valid_prefix frames
  recovers_torn rs r k h small l =
      let layout = torn-Layout rs r k h small l in
      (
        valid_offset-encodings rs _ _ _ 0 layout ∙ omega arith,
        frames_from-encodings rs _ _ _ 0 layout,
      )
