-- ===== src/Record/Runs.antt =====
-- The frames of small records, with a checksum that is always 0.
use nesso.Base.{
  ℕ, ◌+◌, ◌*◌, ◌≡◌, refl, none, some, List, [], ◌∷◌, ◌++◌, length, take, replicate,
  length-replicate, arith, IsU32, All,
}
use nesso.Base.Bytes.{IsByte, from_be_bytes, slice}
use nesso.Record.{Record, OpType, IsRecord, encode, decode, header_size}
use nesso.Record.RoundTrip.{decode-encode, encode-decode}
use nesso.Record.Refusals.{decode-encode_oversized, decode-take-encode}

abbrev no_sum : List ℕ → ℕ
no_sum bytes = 0

no_sum_word : (bs : List ℕ) → IsU32 (no_sum bs)
no_sum_word bs = omega arith

abbrev small : Record
small = record { id = 7; op_type = OpType.leased; priority = 3; payload = 1 ∷ 2 ∷ [] }

small-IsRecord : IsRecord small
small-IsRecord = record {
  id_fits = omega arith;
  priority_fits = omega arith;
  payload_bytes = (omega arith, (omega arith, tt));
}

abbrev small_bytes : List ℕ
small_bytes =
    0x4e ∷ 0 ∷ 0 ∷ 0 ∷ 0 ∷ 1 ∷ 3 ∷ 0 ∷ 0 ∷ 0 ∷ 0 ∷ 0 ∷ 0 ∷ 0 ∷ 7 ∷ 0 ∷ 0 ∷ 0 ∷ 2 ∷ 1 ∷ 2 ∷ []

encode_small : encode no_sum small ≡ small_bytes
unfolding encode
encode_small = refl

decode_small : decode no_sum small_bytes ≡ some small
unfolding decode from_be_bytes slice
decode_small = refl

decode_other_magic : decode no_sum (0x4f ∷ []) ≡ none
unfolding decode
decode_other_magic = refl

unfoldable zeros : ℕ → List ℕ
zeros n = replicate n 0

length-zeros : (n : ℕ) → length (zeros n) ≡ n
unfolding zeros
length-zeros n = length-replicate n 0

-- A payload of one byte more than the maximum.
abbrev oversized : Record
oversized = record {
  id = 1;
  op_type = OpType.created;
  priority = 0;
  payload = zeros (64 * 1024 * 1024 + 1);
}

small_bytes-IsByte : All IsByte small_bytes
small_bytes-IsByte = (
  omega arith,
  (
    omega arith,
    (
      omega arith,
      (
        omega arith,
        (
          omega arith,
          (
            omega arith,
            (
              omega arith,
              (
                omega arith,
                (
                  omega arith,
                  (
                    omega arith,
                    (
                      omega arith,
                      (
                        omega arith,
                        (
                          omega arith,
                          (
                            omega arith,
                            (
                              omega arith,
                              (
                                omega arith,
                                (
                                  omega arith,
                                  (omega arith, (omega arith, (omega arith, (omega arith, tt)))),
                                ),
                              ),
                            ),
                          ),
                        ),
                      ),
                    ),
                  ),
                ),
              ),
            ),
          ),
        ),
      ),
    ),
  ),
)

decode-encode_example : decode no_sum (encode no_sum small ++ 9 ∷ []) ≡ some small
decode-encode_example = decode-encode no_sum no_sum_word small (9 ∷ []) small-IsRecord (omega arith)

encode-decode_example : take (header_size + 2) small_bytes ≡ encode no_sum small
encode-decode_example =
    encode-decode no_sum no_sum_word small_bytes small small_bytes-IsByte decode_small

decode-encode_oversized_example : decode no_sum (encode no_sum oversized ++ []) ≡ none
decode-encode_oversized_example =
    decode-encode_oversized no_sum oversized [] (omega (arith, length-zeros (64 * 1024 * 1024 + 1)))
      (omega (arith, length-zeros (64 * 1024 * 1024 + 1)))

decode-take-encode_example : decode no_sum (take 20 (encode no_sum small)) ≡ none
decode-take-encode_example =
    decode-take-encode no_sum small 20 (omega arith) (unfold encode in omega arith)
