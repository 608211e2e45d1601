-- ===== src/Wal/Runs.antt =====
-- A log with one segment that holds one record.
use nesso.Base.{ℕ, ◌≡◌, refl, true, none, some, List, [], ◌∷◌, ◌++◌, length, take, arith, IsU32}
use nesso.Base.Maps.{lookup}
use nesso.Disk.{Disk}
use nesso.Io.{ErrorKind, ok}
use nesso.Wal.{recover_compaction, Wal, WriteOutcome, write_record}
use nesso.Wal.Compaction.{execute_compaction_phase2, absorb_all, no_survivors}
use nesso.Wal.Compaction.Crash.{
  swapped_segment, crashed, execute_compaction_phase2-segments, recover_compaction-completes,
}
use nesso.Wal.Compaction.Latest.{unless_over, last_of, latest_records-absorb_all}
use nesso.Wal.Reader.{read_at}
use nesso.Wal.Reader.Bounds.{read_at-bounded}
use Prim.Native.Nat.{◌≤◌}
use nesso.Record.{Record, OpType, encode}
use nesso.Wal.Append.{Holds, write_record-undone}
use nesso.Wal.Scan.{valid_prefix, frames}
use nesso.Wal.Scan.Laws.{Fits, encodings, placed}
use nesso.Wal.Scan.Recovery.{recovers_torn}

abbrev no_sum : List ℕ → ℕ
no_sum bytes = 0

no_sum_word : (bs : List ℕ) → IsU32 (no_sum bs)
no_sum_word bs = omega arith

abbrev pushed : Record
pushed = record { id = 1; op_type = OpType.created; priority = 4; payload = 10 ∷ [] }

abbrev acked : Record
acked = record { id = 1; op_type = OpType.acked; priority = 4; payload = [] }

pushed-Fits : Fits pushed
pushed-Fits = record {
  is_record = record {
    id_fits = omega arith;
    priority_fits = omega arith;
    payload_bytes = (omega arith, tt);
  };
  small = omega arith;
}

abbrev disk : Disk
disk = record {
  segments = (1, 0) ∷ [];
  inodes = (0, encode no_sum pushed) ∷ [];
  next_inode = 1;
  compacting = none;
  plan = none;
  swap = none;
}

-- The segment is full from 20 bytes on, so the next append opens segment 2.
abbrev wal : Wal
wal = record { active_segment_id = 1; active_file = 0; current_size = 20; max_segment_size = 20 }

wal-Holds : Holds no_sum wal disk (pushed ∷ [])
unfolding lookup encode
wal-Holds = record { named = refl; bytes = refl; size = refl; fit = (pushed-Fits, tt) }

write_record-undone_example :
    let (_, wal', disk') =
      write_record no_sum wal disk (WriteOutcome.failed ErrorKind.other_error 3 true) acked in
    Holds no_sum wal' disk' (pushed ∷ [])
write_record-undone_example =
    write_record-undone no_sum wal disk (pushed ∷ []) acked ErrorKind.other_error 3 wal-Holds

recovers_torn_example :
    let raw = encodings no_sum (pushed ∷ []) ++ take 7 (encode no_sum acked) in
    (valid_prefix no_sum raw ≡ length (encodings no_sum (pushed ∷ [])))
    × (frames no_sum raw ≡ placed no_sum 0 (pushed ∷ []))
recovers_torn_example =
    recovers_torn no_sum no_sum_word (pushed ∷ []) acked 7 (pushed-Fits, tt) (omega arith)
      (unfold encode in omega arith)

-- Segments 1 and 2 are closed, and inode 5 is the file that phase 1 wrote.
abbrev planned : Disk
planned = record {
  segments = (1, 0) ∷ (2, 1) ∷ (3, 2) ∷ [];
  inodes = (5, []) ∷ [];
  next_inode = 6;
  compacting = some 5;
  plan = some (1 ∷ 2 ∷ []);
  swap = none;
}

execute_compaction_phase2-segments_example :
    let (answer, d') = execute_compaction_phase2 planned (1 ∷ 2 ∷ []) in
    (answer ≡ ok tt) × (lookup 2 d'.segments ≡ swapped_segment planned 5 (1 ∷ 2 ∷ []) 2)
execute_compaction_phase2-segments_example =
    execute_compaction_phase2-segments planned 5 (1 ∷ 2 ∷ []) 2 refl

recover_compaction-completes_example :
    lookup 2 (recover_compaction (crashed planned 5 (1 ∷ []) (2 ∷ []))).segments
    ≡ lookup 2 (execute_compaction_phase2 planned (1 ∷ 2 ∷ [])).1.segments
recover_compaction-completes_example =
    recover_compaction-completes planned 5 (1 ∷ []) (2 ∷ []) 2 refl

latest_records-absorb_all_example :
    lookup 1 (absorb_all no_survivors ((0, pushed) ∷ (20, acked) ∷ [])).latest_records
    ≡ unless_over (last_of 1 ((0, pushed) ∷ (20, acked) ∷ []))
latest_records-absorb_all_example = latest_records-absorb_all ((0, pushed) ∷ (20, acked) ∷ []) 1

read_at-bounded_example :
    length (read_at no_sum (record { read_cache = [] }) disk 1 0).1.read_cache ≤ 8
read_at-bounded_example = read_at-bounded no_sum (record { read_cache = [] }) disk 1 0 (omega arith)
