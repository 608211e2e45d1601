-- ===== src/Wal/Compaction/Offsets.antt =====
-- storage/wal.rs, the end of phase 1: the offsets it returns lead to the records it wrote.
use nesso.Base.{
  ℕ, ◌+◌, ◌≡◌, refl, sym, ap, ◌∙◌, none, some, List, [], ◌∷◌, ◌++◌, length, length-append,
  drop-append, append_assoc, append-nil, take-append, take-append_le, arith, IsU32, Bool-cases,
  Option-cases, inl, inr, ◌==◌, ==_iff,
}
use mathlib.Core.Option.{some-injective}
use nesso.Base.Maps.{lookup, insert, lookup-insert}
use nesso.Io.{ok}
use nesso.Record.{Record, encode, decode, header_size}
use nesso.Record.Frame.{length-encode}
use nesso.Record.RoundTrip.{decode-encode}
use nesso.Wal.Scan.Laws.{Fits, header-encode}
use nesso.Wal.Reader.{read_bytes}
use nesso.Wal.Compaction.{Survivors, consolidate, write_survivors}

module _ (crc32 : List ℕ → ℕ) where
  pub write_survivors-gone :
      (s : Survivors) (offset i : ℕ) (ids : List ℕ)
      → lookup i s.latest_records ≡ none
      → write_survivors crc32 s offset (i ∷ ids) ≡ write_survivors crc32 s offset ids
  unfolding write_survivors
  write_survivors-gone s offset i ids gone =
      let same : offset + 0 ≡ offset = omega arith in rw (write_survivors, gone, same)

  pub write_survivors-kept :
      (s : Survivors) (offset i : ℕ) (ids : List ℕ) (r : Record)
      → lookup i s.latest_records ≡ some r
      → write_survivors crc32 s offset (i ∷ ids) ≡ (
          let bytes = encode crc32 (consolidate s.created_payloads r) in
          let (tail, offsets) = write_survivors crc32 s (offset + length bytes) ids in
          (bytes ++ tail, insert i offset offsets))
  unfolding write_survivors
  write_survivors-kept s offset i ids r kept = rw (write_survivors, kept)

module _ (crc32 : List ℕ → ℕ) (crc32_word : (bs : List ℕ) → IsU32 (crc32 bs)) where
  -- A frame anywhere in a file is read from its offset.
  read_bytes-frame :
      (before rest : List ℕ) (r : Record)
      → Fits r
      → read_bytes crc32 (before ++ (encode crc32 r ++ rest)) (length before) ≡ ok (some r)
  unfolding read_bytes
  read_bytes-frame before rest r v =
      let behind = drop-append (length before) before (encode crc32 r ++ rest) refl in
      let len = length-append before (encode crc32 r ++ rest) in
      let len' = length-append (encode crc32 r) rest in
      rw (behind, len)
        (ground (
          arith,
          len',
          take-append_le 19 (encode crc32 r) rest,
          header-encode crc32 r v.small,
          length-encode crc32 r,
          ap (decode crc32) (
              take-append (header_size + length r.payload) (encode crc32 r) rest
                (length-encode crc32 r)),
          ap (decode crc32) (append-nil (encode crc32 r)),
          decode-encode crc32 crc32_word r [] v.is_record v.small,
        ))

  -- Where an offset leads: to the consolidated record of a surviving task.
  abbrev pub Leads : Survivors → List ℕ → ℕ → ℕ → Type 0
  Leads s segment id offset =
      (r : Record) × (lookup id s.latest_records ≡ some r)
      × (read_bytes crc32 segment offset ≡ ok (some (consolidate s.created_payloads r)))

  -- If every consolidated record fits, each offset that phase 1 returns, in a segment that has
  -- `before` in front of what it writes, leads to the consolidated record of its task.
  pub write_survivors-Leads :
      (s : Survivors) (ids : List ℕ) (before : List ℕ) (id offset : ℕ)
      → ((i : ℕ) (r : Record)
          → lookup i s.latest_records ≡ some r
          → Fits (consolidate s.created_payloads r))
      → lookup id (write_survivors crc32 s (length before) ids).1 ≡ some offset
      → Leads s (before ++ (write_survivors crc32 s (length before) ids).0) id offset
  write_survivors-Leads s [] before id offset fit e = unfold write_survivors lookup in cc
  write_survivors-Leads s (i ∷ ids) before id offset fit e =
      elim (Option-cases (lookup i s.latest_records)) [
        | inl gone ↦
            let same = write_survivors-gone crc32 s (length before) i ids gone in
            rw same (write_survivors-Leads s ids before id offset fit (rw same at e))
        | inr (r, kept) ↦
            let bytes = encode crc32 (consolidate s.created_payloads r) in
            let step = write_survivors-kept crc32 s (length before) i ids r kept in
            let further : length before + length bytes ≡ length (before ++ bytes) =
              sym (length-append before bytes) in
            let t = write_survivors crc32 s (length (before ++ bytes)) ids in
            let step' : write_survivors crc32 s (length before) (i ∷ ids)
                ≡ (bytes ++ t.0, insert i (length before) t.1) =
              step ∙ rw further in
            let found : lookup id (insert i (length before) t.1) ≡ some offset = rw step' at e in
            elim (Bool-cases (i == id)) [
              | inl same ↦
                  let here : length before ≡ offset =
                    some-injective _ _
                      (rw same at (sym (lookup-insert i id (length before) t.1) ∙ found)) in
                  (
                    r,
                    ap (λ (k : ℕ). lookup k s.latest_records) (sym ((==_iff i id).0 same)) ∙ kept,
                    rw (step', ← here)
                        (read_bytes-frame before t.0 (consolidate s.created_payloads r)
                          (fit i r kept)),
                  )
              | inr other ↦
                  let behind : lookup id t.1 ≡ some offset =
                    rw other at (sym (lookup-insert i id (length before) t.1) ∙ found) in
                  rw (step', ← append_assoc before bytes t.0)
                    (write_survivors-Leads s ids (before ++ bytes) id offset fit behind)
            ]
      ]
