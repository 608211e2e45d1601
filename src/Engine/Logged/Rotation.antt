-- ===== src/Engine/Logged/Rotation.antt =====
-- storage/wal.rs, `rotate` and `append`: what the iterator yields behind them.
use nesso.Base.{
  ℕ, ◌+◌, ◌^◌, ◌<◌, ◌≡◌, refl, ap, ◌∙◌, List, [], ◌∷◌, ◌++◌, length, leb, arith, IsU32, Bool-cases,
  Option-cases, inl, inr, add_u64,
}
use nesso.Disk.{Disk}
use nesso.Io.{Result, ok, err}
use nesso.Record.{Record, encode}
use nesso.Wal.{Wal, AppendIo, WriteOutcome, append, rotate, write_record, iter_all, after_rotate}
use nesso.Record.Frame.{length-encode}
use nesso.Wal.Scan.Laws.{Fits}
use nesso.Engine.Logged.Growth.{IsOpen, write_record-grows}
use nesso.Engine.Logged.NewSegment.{
  iter_all-new_segment, new_segment-IsOpen, open_segment-new, new_segment,
}

module _ (crc32 : List ℕ → ℕ) where
  -- A log before an append, or behind the rotation that it began with.
  record Ready (w : Wal) (d : Disk) (log : List (ℕ × ℕ × Record)) (r : Record) : Type 0 where
    rs : List Record
    is_open : IsOpen crc32 w d rs
    yields : iter_all crc32 d ≡ log
    room : w.current_size + length (encode crc32 r) < 2 ^ 64

  -- A log behind an append.
  pub record Grown (log : List (ℕ × ℕ × Record)) (x : ℕ × ℕ × Record) (w : Wal) (d : Disk)
      : Type 0 where
    pub rs : List Record
    pub is_open : IsOpen crc32 w d rs
    pub yields : iter_all crc32 d ≡ log ++ x ∷ []

  module _ (crc32_word : (bs : List ℕ) → IsU32 (crc32 bs)) where
    -- If the append succeeds, what the iterator yields is longer by the record at its place.
    abbrev pub GrownBy : List (ℕ × ℕ × Record) → Record → Result (ℕ × ℕ) × Wal × Disk → Type 0
    GrownBy log r (err k, w, d) = Unit {0}
    GrownBy log r (ok loc, w, d) = Grown log (loc.0, loc.1, r) w d

    write_record-Grown :
        (w : Wal) (d : Disk) (log : List (ℕ × ℕ × Record)) (o : WriteOutcome) (r : Record)
        → Ready w d log r
        → Fits r
        → GrownBy log r (write_record crc32 w d o r)
    unfolding write_record
    write_record-Grown w d log (WriteOutcome.failed e n truncated) r h v = tt
    write_record-Grown w d log WriteOutcome.written r h v =
        let (grown, o) = write_record-grows crc32 crc32_word w d h.rs r h.is_open v h.room in
        record {
          rs = h.rs ++ r ∷ [];
          is_open = o;
          yields =
              grown
              ∙ ap
                  (λ (l : List (ℕ × ℕ × Record)).
                    l ++ (w.active_segment_id, w.current_size, r) ∷ [])
                  h.yields;
        }

    after_rotate-Grown :
        (w : Wal) (d : Disk) (rs : List Record) (io : AppendIo) (r : Record)
        → IsOpen crc32 w d rs
        → w.active_segment_id + 1 < 2 ^ 64
        → Fits r
        → GrownBy (iter_all crc32 d) r (after_rotate crc32 io r (rotate w d io))
    unfolding rotate
    after_rotate-Grown w d rs io r o room v = elim (Option-cases io.sync) [
      | inr (k, failed) ↦ rw (rotate, failed) tt
      | inl synced ↦ elim (Option-cases io.open_) [
        | inr (k, failed) ↦ rw (rotate, synced, failed) tt
        | inl opened ↦
            let id : add_u64 w.active_segment_id 1 ≡ w.active_segment_id + 1 = omega arith in
            rw (rotate, synced, opened, id, open_segment-new crc32 w d rs o)
              (write_record-Grown
                (record w {
                  active_segment_id = w.active_segment_id + 1;
                  active_file = d.next_inode;
                  current_size = 0;
                })
                (new_segment d (w.active_segment_id + 1)) (iter_all crc32 d) io.write r
                (record {
                  rs = [];
                  is_open = new_segment-IsOpen crc32 w d rs o;
                  yields = iter_all-new_segment crc32 w d rs o;
                  room = omega (arith, length-encode crc32 r, v.small);
                })
                v)
      ]
    ]

    -- An append on an open log that succeeds, of a record that fits, adds exactly that record to
    -- what the iterator yields, last and at the place returned, and leaves the log open, whether it
    -- rotates or not.
    pub append-Grown :
        (w : Wal) (d : Disk) (rs : List Record) (io : AppendIo) (r : Record)
        → IsOpen crc32 w d rs
        → w.current_size + length (encode crc32 r) < 2 ^ 64
        → w.active_segment_id + 1 < 2 ^ 64
        → Fits r
        → GrownBy (iter_all crc32 d) r (append crc32 w d io r)
    unfolding append
    append-Grown w d rs io r o room id_room v =
        elim (Bool-cases (leb w.max_segment_size w.current_size)) [
          | inl full ↦ rw (append, full) (after_rotate-Grown w d rs io r o id_room v)
          | inr space ↦
              rw (append, space)
                (write_record-Grown w d (iter_all crc32 d) io.write r
                  (record { rs = rs; is_open = o; yields = refl; room = room }) v)
        ]
