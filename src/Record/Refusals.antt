-- ===== src/Record/Refusals.antt =====
-- Frames that `decode` does not accept.
use nesso.Base.{
  ℕ, ◌≤◌, ◌<◌, ◌^◌, ◌%◌, ◌≡◌, ap, ◌∙◌, List, ◌++◌, length, arith, none, inl, inr, take, length-take,
  Option-cases,
}
use nesso.Base.Bytes.{from_be_bytes, slice, slice-take, from-to_be_bytes}
use nesso.Record.{Record, encode, decode, max_payload_size}
use nesso.Record.Frame.{Decodes, Decodes-of_decode, length-encode}

module _ (crc32 : List ℕ → ℕ) where
  none_of_absurd :
      (bytes : List ℕ)
      → ((r : Record) → Decodes crc32 bytes (from_be_bytes (slice 15 19 bytes)) r → ⊥)
      → decode crc32 bytes ≡ none
  none_of_absurd bytes h = elim (Option-cases (decode crc32 bytes)) [
    | inl e ↦ e
    | inr (r, e) ↦ absurd (h r (Decodes-of_decode crc32 bytes r e))
  ]

  -- A record whose payload is longer than the maximum and has a length of 32 bits can be encoded,
  -- and is refused when it is read back, with any bytes behind it.
  pub decode-encode_oversized :
      (r : Record) (rest : List ℕ)
      → max_payload_size < length r.payload
      → length r.payload < 2 ^ 32
      → decode crc32 (encode crc32 r ++ rest) ≡ none
  unfolding encode slice
  decode-encode_oversized r rest h l =
      none_of_absurd (encode crc32 r ++ rest) λ s d.
        omega (arith, d.bounded, from-to_be_bytes 4 (length r.payload % 2 ^ 32) (omega arith))

  pub payload_len-encode :
      (r : Record)
      → length r.payload ≤ max_payload_size
      → from_be_bytes (slice 15 19 (encode crc32 r)) ≡ length r.payload
  unfolding encode slice
  payload_len-encode r h =
      from-to_be_bytes 4 (length r.payload % 2 ^ 32) (omega arith) ∙ omega arith

  -- A frame that has been cut off anywhere is refused: no proper prefix of an encoded record of at
  -- most the maximal payload decodes.
  pub decode-take-encode :
      (r : Record) (k : ℕ)
      → length r.payload ≤ max_payload_size
      → k < length (encode crc32 r)
      → decode crc32 (take k (encode crc32 r)) ≡ none
  decode-take-encode r k h l = none_of_absurd (take k (encode crc32 r)) λ s d.
      let cut = length-take k (encode crc32 r) in
      let header : 19 ≤ k = omega (arith, d.header_present, cut) in
      let seen = ap from_be_bytes (slice-take 15 19 k (encode crc32 r) header) in
      omega (arith, d.frame_present, cut, seen, payload_len-encode r h, length-encode crc32 r)
