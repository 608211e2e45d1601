-- ===== src/Wal.antt =====
-- storage/wal.rs: the segmented log. What a write, a sync or an open of an append answers is an
-- argument; reading a file, and the system calls of opening the log and of the iterator, do not
-- fail. Segments have the names that are written for their numbers.
pub mod Scan
pub mod Append
pub mod Reader
pub mod Compaction
mod Runs
use nesso.Base.{
  ℕ, ◌+◌, ◌*◌, Bool, true, false, Option, none, some, List, [], ◌∷◌, ◌++◌, length, take, ltb, leb,
  ◌==◌, if◌then◌else◌, add_u64, map,
}
use nesso.Base.Maps.{Map, lookup, remove, is_some}
use nesso.Base.Sort.{sort}
use nesso.Io.{ErrorKind, Result, ok, err, Outcome}
use nesso.Disk.{Disk, bytes_of, segment_bytes, write_inode, open_segment, set_len}
use nesso.Record.{Record, encode}
use nesso.Wal.Scan.{valid_prefix, frames}
use mathlib.Core.Option

-- `DEFAULT_MAX_SEGMENT_SIZE`
abbrev pub default_max_segment_size : ℕ
default_max_segment_size = 64 * 1024 * 1024

-- `active_file` is a handle: it need not be the file of `active_segment_id` once a rotation failed.
pub record Wal : Type 0 where
  pub active_segment_id : ℕ
  pub active_file : ℕ
  pub current_size : ℕ
  pub max_segment_size : ℕ

-- A failed `write_all` leaves some bytes, and the `set_len` behind it may fail too.
pub data WriteOutcome : Type 0 where
  written : WriteOutcome
  failed : ErrorKind → (n : ℕ) → (truncated : Bool) → WriteOutcome

-- The answers to the calls of one `append`.
pub record AppendIo : Type 0 where
  pub sync : Outcome
  pub open_ : Outcome
  pub write : WriteOutcome

abbrev pub all_written : AppendIo
all_written = record { sync = none; open_ = none; write = WriteOutcome.written }

unfoldable pub rotate : Wal → Disk → AppendIo → Result (Unit {0}) × Wal × Disk
rotate w d io = elim io.sync [
  | some e ↦ (err e, w, d)
  | none ↦
      let w' : Wal = record w { active_segment_id = add_u64 w.active_segment_id 1 } in
      elim io.open_ [
        | some e ↦ (err e, w', d)
        | none ↦
            let (inode, d') = open_segment d (add_u64 w.active_segment_id 1) in
            (ok tt, record w' { active_file = inode; current_size = 0 }, d')
      ]
]

module _ (crc32 : List ℕ → ℕ) where
  -- `append` behind the rotation. The file is open for appending, so bytes go to its end.
  unfoldable pub write_record : Wal → Disk → WriteOutcome → Record → Result (ℕ × ℕ) × Wal × Disk
  write_record w d WriteOutcome.written r =
      let bytes = encode crc32 r in
      (
        ok (w.active_segment_id, w.current_size),
        record w { current_size = add_u64 w.current_size (length bytes) },
        write_inode d w.active_file (bytes_of d w.active_file ++ bytes),
      )
  write_record w d (WriteOutcome.failed e n truncated) r =
      let left = bytes_of d w.active_file ++ take n (encode crc32 r) in
      (
        err e,
        w,
        write_inode d w.active_file (if truncated then set_len w.current_size left else left),
      )

  abbrev pub after_rotate :
      AppendIo → Record → Result (Unit {0}) × Wal × Disk → Result (ℕ × ℕ) × Wal × Disk
  after_rotate io r (err e, w, d) = (err e, w, d)
  after_rotate io r (ok _, w, d) = write_record w d io.write r

  unfoldable pub append : Wal → Disk → AppendIo → Record → Result (ℕ × ℕ) × Wal × Disk
  append w d io r =
      if leb w.max_segment_size w.current_size
      then after_rotate io r (rotate w d io)
      else write_record w d io.write r

-- The cleanup of `open` after a crash in compaction.
abbrev pub remove_segments : List ℕ → Map ℕ → Map ℕ
remove_segments [] names = names
remove_segments (id ∷ ids) names = remove_segments ids (if ltb 1 id then remove id names else names)

-- `plan_file` is the plan if it exists, else the swap; the one that was read is removed.
abbrev pub remove_plan_file : Disk → Disk
remove_plan_file d = elim d.plan [
  | some _ ↦ record d { plan = none }
  | none ↦ record d { swap = none }
]

abbrev pub plan_file : Disk → Option (List ℕ)
plan_file d = elim d.plan [ some ids ↦ some ids | none ↦ d.swap ]

unfoldable pub recover_compaction : Disk → Disk
recover_compaction d = elim (plan_file d) [
  | none ↦ d
  | some ids ↦
      if is_some d.compacting
      then record (remove_plan_file d) { compacting = none }
      else record (remove_plan_file d) { segments = remove_segments ids d.segments }
]

abbrev pub max_id : Map ℕ → ℕ
max_id [] = 0
max_id ((id, _) ∷ names) = if ltb (max_id names) id then id else max_id names

abbrev pub segment_ids : Disk → List ℕ
segment_ids d = sort leb (map (λ e. e.0) d.segments)

module _ (crc32 : List ℕ → ℕ) where
  -- From `let active_path` on: open the last segment and cut off what recovery cannot read.
  unfoldable pub open_active : Disk → ℕ → Option ℕ → Wal × Disk
  open_active d id max_segment_size =
      let (inode, d') = open_segment d id in
      let raw = bytes_of d' inode in
      let end = valid_prefix crc32 raw in
      (
        record {
          active_segment_id = id;
          active_file = inode;
          current_size = end;
          max_segment_size = Option.get_or max_segment_size default_max_segment_size;
        },
        if ltb end (length raw) then write_inode d' inode (set_len end raw) else d',
      )

  unfoldable pub open_wal : Disk → Option ℕ → Wal × Disk
  open_wal d max_segment_size =
      let d' : Disk = record (recover_compaction d) { compacting = none } in
      let id = max_id d'.segments in open_active d' (if id == 0 then 1 else id) max_segment_size

  abbrev pub tag : ℕ → List (ℕ × Record) → List (ℕ × ℕ × Record)
  tag id [] = []
  tag id ((offset, r) ∷ rest) = (id, offset, r) ∷ tag id rest

  -- What `WalIteratorAll` yields from the segments that are left.
  unfoldable pub iter_segments : Disk → List ℕ → List (ℕ × ℕ × Record)
  iter_segments d [] = []
  iter_segments d (id ∷ ids) =
      tag id (frames crc32 (Option.get_or (segment_bytes d id) [])) ++ iter_segments d ids

  unfoldable pub iter_all : Disk → List (ℕ × ℕ × Record)
  iter_all d = iter_segments d (segment_ids d)
