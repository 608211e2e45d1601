-- ===== src/Wal/Append.antt =====
-- storage/wal.rs, `Wal::append`: the active segment holds whole frames, and what was appended is
-- read back from the place that was returned.
use nesso.Base.{
  ℕ, ◌+◌, ◌-◌, ◌<◌, ◌^◌, ◌≡◌, refl, ap, sym, ◌∙◌, true, some, List, [], ◌∷◌, ◌++◌, length,
  length-append, take, append_assoc, append-nil, take-append, All, All-append, arith, add_u64,
}
use nesso.Base.Maps.{lookup, lookup-insert_self}
use nesso.Io.{ErrorKind, Result, ok}
use nesso.Disk.{Disk, bytes_of, write_inode, set_len}
use nesso.Record.{Record, encode}
use nesso.Wal.{Wal, WriteOutcome, write_record}
use nesso.Wal.Scan.Laws.{Fits, encodings}
use nesso.Wal.Reader.{read_at, new_reader}

-- To cut a file off where something was appended gives the file back.
set_len-append : (n : ℕ) (xs ys : List ℕ) → length xs ≡ n → set_len n (xs ++ ys) ≡ xs
set_len-append n xs ys e =
    let none_missing : n - length (xs ++ ys) ≡ 0 = omega (arith, length-append xs ys) in
    rw (take-append n xs ys e, none_missing) (append-nil xs)

module _ (crc32 : List ℕ → ℕ) where
  -- The active segment holds the frames of `rs` and nothing else, and the log knows its size.
  pub record Holds (w : Wal) (d : Disk) (rs : List Record) : Type 0 where
    pub named : lookup w.active_segment_id d.segments ≡ some w.active_file
    pub bytes : bytes_of d w.active_file ≡ encodings crc32 rs
    pub size : w.current_size ≡ length (encodings crc32 rs)
    pub fit : All Fits rs

  pub encodings-snoc :
      (rs : List Record) (r : Record)
      → encodings crc32 (rs ++ r ∷ []) ≡ encodings crc32 rs ++ encode crc32 r
  encodings-snoc [] r = append-nil (encode crc32 r)
  encodings-snoc (x ∷ rs) r =
      ap (◌++◌ (encode crc32 x)) (encodings-snoc rs r)
      ∙ sym (append_assoc (encode crc32 x) (encodings crc32 rs) (encode crc32 r))

  -- The bytes of the active segment are replaced; everything else of the disk stays.
  rewritten-Holds :
      (w w' : Wal) (d : Disk) (rs : List Record) (bytes : List ℕ)
      → lookup w.active_segment_id d.segments ≡ some w.active_file
      → w'.active_segment_id ≡ w.active_segment_id
      → w'.active_file ≡ w.active_file
      → bytes ≡ encodings crc32 rs
      → w'.current_size ≡ length bytes
      → All Fits rs
      → Holds w' (write_inode d w.active_file bytes) rs
  rewritten-Holds w w' d rs bytes named ei ef eb es fit = record {
    named = rw (ei, ef) named;
    bytes = rw (ef, lookup-insert_self w.active_file bytes d.inodes) eb;
    size = es ∙ ap length eb;
    fit = fit;
  }

  pub write_record-Holds :
      (w : Wal) (d : Disk) (rs : List Record) (r : Record)
      → Holds w d rs
      → Fits r
      → w.current_size + length (encode crc32 r) < 2 ^ 64
      → let (_, w', d') = write_record crc32 w d WriteOutcome.written r in
        Holds w' d' (rs ++ r ∷ [])
  unfolding write_record
  write_record-Holds w d rs r h v room =
      rewritten-Holds w
        (record w { current_size = add_u64 w.current_size (length (encode crc32 r)) }) d
        (rs ++ r ∷ []) (bytes_of d w.active_file ++ encode crc32 r) h.named refl refl
        (ap (λ (b : List ℕ). b ++ encode crc32 r) h.bytes ∙ sym (encodings-snoc rs r))
        (omega (
          arith,
          h.size,
          ap length h.bytes,
          length-append (bytes_of d w.active_file) (encode crc32 r),
        ))
        (All-append Fits rs (r ∷ []) h.fit (v, tt))

  -- A write to a segment of whole frames that fails after any number of bytes, and is cut off
  -- again, leaves the segment with the frames it held.
  pub write_record-undone :
      (w : Wal) (d : Disk) (rs : List Record) (r : Record) (e : ErrorKind) (n : ℕ)
      → Holds w d rs
      → let (_, w', d') = write_record crc32 w d (WriteOutcome.failed e n true) r in Holds w' d' rs
  unfolding write_record
  write_record-undone w d rs r e n h =
      let left = bytes_of d w.active_file ++ take n (encode crc32 r) in
      let size : length (bytes_of d w.active_file) ≡ w.current_size =
        omega (arith, h.size, ap length h.bytes) in
      let cut : set_len w.current_size left ≡ bytes_of d w.active_file =
        set_len-append w.current_size (bytes_of d w.active_file) (take n (encode crc32 r)) size in
      rewritten-Holds w w d rs (set_len w.current_size left) h.named refl refl (cut ∙ h.bytes)
        (omega (arith, size, ap length cut)) h.fit

  -- The log after an append that succeeded: the record stands last in the active segment, and a
  -- reader with no open file finds it at the place that was returned.
  pub record Appended (r : Record) (result : Result (ℕ × ℕ) × Wal × Disk) : Type 0 where
    pub loc : ℕ × ℕ
    pub wal : Wal
    pub disk : Disk
    pub rs : List Record
    pub answer : result ≡ (ok loc, wal, disk)
    pub holds : Holds wal disk (rs ++ r ∷ [])
    pub found : (read_at crc32 new_reader disk loc.0 loc.1).0 ≡ ok (some r)
