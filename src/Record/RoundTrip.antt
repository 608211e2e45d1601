-- ===== src/Record/RoundTrip.antt =====
-- `decode` against `encode`, in both directions.
use nesso.Base.{
  ℕ, ◌+◌, ◌-◌, ◌≤◌, ◌^◌, ◌%◌, ◌≡◌, refl, ap, sym, ◌∙◌, List, [], ◌∷◌, ◌++◌, length, length-append,
  arith, some, take, take-append, IsU32, All, length-take, take_past,
}
use nesso.Base.Bytes.{IsByte, to_be_bytes, from_be_bytes, slice, from-to_be_bytes, to-from_be_bytes}
use nesso.Record.{
  Record, OpType, IsRecord, encode, decode, header_size, max_payload_size, magic_byte, op_code,
  op_of_code, frame_body,
}
use nesso.Record.Frame.{Decodes, decode_of_Decodes, Decodes-of_decode}

op_of_code-op_code : (op : OpType) → op_of_code (op_code op) ≡ some op
op_of_code-op_code OpType.created = refl
op_of_code-op_code OpType.leased = refl
op_of_code-op_code OpType.acked = refl
op_of_code-op_code OpType.nacked = refl
op_of_code-op_code OpType.expired = refl
op_of_code-op_code OpType.dead_lettered = refl

op_code-op_of_code : (c : ℕ) (op : OpType) → op_of_code c ≡ some op → op_code op ≡ c
op_code-op_of_code c op e = ground arith

module _ (crc32 : List ℕ → ℕ) (crc32_word : (bs : List ℕ) → IsU32 (crc32 bs)) where
  encode-Decodes :
      (r : Record) (rest : List ℕ)
      → IsRecord r
      → length r.payload ≤ max_payload_size
      → Decodes crc32 (encode crc32 r ++ rest) (length r.payload) r
  unfolding encode slice
  encode-Decodes r rest v h = record {
    header_present = omega arith;
    magic = refl;
    payload_len = from-to_be_bytes 4 (length r.payload % 2 ^ 32) (omega arith) ∙ omega arith;
    bounded = h;
    frame_present = omega (arith, length-append r.payload rest);
    checksum =
        ap crc32
          (take-append (header_size + length r.payload - 5) (frame_body r) rest (omega arith))
        ∙ sym (from-to_be_bytes 4 (crc32 (frame_body r)) (crc32_word (frame_body r)));
    op = op_of_code-op_code r.op_type;
    priority = refl;
    id = sym (from-to_be_bytes 8 r.id v.id_fits);
    payload = sym (take-append (header_size + length r.payload - 19) r.payload rest (omega arith));
  }

  -- Decoding an encoded record of at most the maximal payload, with any bytes behind it, gives the
  -- record, if checksums have 32 bits.
  pub decode-encode :
      (r : Record) (rest : List ℕ)
      → IsRecord r
      → length r.payload ≤ max_payload_size
      → decode crc32 (encode crc32 r ++ rest) ≡ some r
  decode-encode r rest v h =
      decode_of_Decodes crc32 (encode crc32 r ++ rest) (length r.payload) r
        (encode-Decodes r rest v h)

  -- The record's fields are the parts of the frame, for a frame split into its bytes.
  frame-parts :
      (b5 b6 : ℕ) (cs is ls : List ℕ) (r : Record)
      → All IsByte cs × All IsByte is × All IsByte ls
      → length cs ≡ 4
      → length is ≡ 8
      → length ls ≡ 4
      → op_of_code b5 ≡ some r.op_type
      → r.priority ≡ b6
      → r.id ≡ from_be_bytes is
      → length r.payload ≡ from_be_bytes ls
      → length r.payload ≤ max_payload_size
      → crc32 (b5 ∷ b6 ∷ (is ++ (ls ++ r.payload))) ≡ from_be_bytes cs
      → encode crc32 r ≡ magic_byte ∷ (cs ++ (b5 ∷ b6 ∷ (is ++ (ls ++ r.payload))))
  unfolding encode
  frame-parts b5 b6 cs is ls r (hc, hi, hl) nc ni nl op pr id len small sum =
      λ i. magic_byte ∷ (checksum i ++ body i)
    where
      fits : length r.payload % 2 ^ 32 ≡ from_be_bytes ls
      fits = omega arith

      ids : to_be_bytes 8 r.id ≡ is
      ids = ap (to_be_bytes 8) id ∙ to-from_be_bytes 8 is hi ni

      lens : to_be_bytes 4 (length r.payload % 2 ^ 32) ≡ ls
      lens = ap (to_be_bytes 4) fits ∙ to-from_be_bytes 4 ls hl nl

      body : frame_body r ≡ b5 ∷ b6 ∷ (is ++ (ls ++ r.payload))
      body = λ i. op_code-op_of_code b5 r.op_type op i ∷ pr i ∷ (ids i ++ (lens i ++ r.payload))

      checksum : to_be_bytes 4 (crc32 (frame_body r)) ≡ cs
      checksum =
          ap (λ bs. to_be_bytes 4 (crc32 bs)) body
          ∙ ap (to_be_bytes 4) sum
          ∙ to-from_be_bytes 4 cs hc nc

  -- If checksums have 32 bits, the bytes of a frame that `decode` accepts are those that
  -- `encode` writes for the record read.
  pub encode-decode :
      (bytes : List ℕ) (r : Record)
      → All IsByte bytes
      → decode crc32 bytes ≡ some r
      → take (header_size + length r.payload) bytes ≡ encode crc32 r
  unfolding slice
  encode-decode
        (b0 ∷ b1 ∷ b2 ∷ b3 ∷ b4 ∷ b5 ∷ b6 ∷ b7 ∷ b8 ∷ b9 ∷ b10 ∷ b11 ∷ b12 ∷ b13 ∷ b14 ∷ b15 ∷ b16
          ∷ b17 ∷ b18 ∷ tail)
        r b e =
      take_past (header_size + length r.payload) front tail (omega arith) ∙ whole
    where
      front : List ℕ
      front =
          b0 ∷ b1 ∷ b2 ∷ b3 ∷ b4 ∷ b5 ∷ b6 ∷ b7 ∷ b8 ∷ b9 ∷ b10 ∷ b11 ∷ b12 ∷ b13 ∷ b14 ∷ b15 ∷ b16
          ∷ b17 ∷ b18 ∷ []

      n : ℕ
      n = from_be_bytes (b15 ∷ b16 ∷ b17 ∷ b18 ∷ [])

      d : Decodes crc32 (front ++ tail) n r
      d = Decodes-of_decode crc32 (front ++ tail) r e

      len : length r.payload ≡ n
      len = ap length d.payload ∙ length-take (19 + n - 19) tail ∙ omega (arith, d.frame_present)

      sum :
          crc32 (
            b5 ∷ b6 ∷ b7 ∷ b8 ∷ b9 ∷ b10 ∷ b11 ∷ b12 ∷ b13 ∷ b14 ∷ b15 ∷ b16 ∷ b17 ∷ b18
            ∷ r.payload)
          ≡ from_be_bytes (b1 ∷ b2 ∷ b3 ∷ b4 ∷ [])
      sum =
          ap crc32 (
            ap
              (◌++◌
                (b5 ∷ b6 ∷ b7 ∷ b8 ∷ b9 ∷ b10 ∷ b11 ∷ b12 ∷ b13 ∷ b14 ∷ b15 ∷ b16 ∷ b17 ∷ b18 ∷ []))
              (d.payload ∙ ap (λ (m : ℕ). take m tail) (omega arith))
            ∙ sym (
                take_past (19 + n - 5)
                  (b5 ∷ b6 ∷ b7 ∷ b8 ∷ b9 ∷ b10 ∷ b11 ∷ b12 ∷ b13 ∷ b14 ∷ b15 ∷ b16 ∷ b17 ∷ b18
                    ∷ [])
                  tail (omega arith)))
          ∙ d.checksum

      rest : take (header_size + length r.payload - 19) tail ≡ r.payload
      rest = ap (λ (m : ℕ). take (19 + m - 19) tail) len ∙ sym d.payload

      whole : front ++ take (header_size + length r.payload - 19) tail ≡ encode crc32 r
      whole =
          ap (◌++◌ front) rest
          ∙ ap
              (λ (b : ℕ).
                b
                ∷ (b1 ∷ b2 ∷ b3 ∷ b4 ∷ b5 ∷ b6 ∷ b7 ∷ b8 ∷ b9 ∷ b10 ∷ b11 ∷ b12 ∷ b13 ∷ b14 ∷ b15
                    ∷ b16 ∷ b17 ∷ b18 ∷ r.payload))
              d.magic
          ∙ sym (
              frame-parts b5 b6 (b1 ∷ b2 ∷ b3 ∷ b4 ∷ [])
                (b7 ∷ b8 ∷ b9 ∷ b10 ∷ b11 ∷ b12 ∷ b13 ∷ b14 ∷ []) (b15 ∷ b16 ∷ b17 ∷ b18 ∷ []) r
                (omega arith, omega arith, omega arith) refl refl refl d.op d.priority d.id len
                (omega (arith, d.bounded, len)) sum)
  encode-decode bytes r b e =
      absurd (omega (arith, (Decodes-of_decode crc32 bytes r e).header_present))
