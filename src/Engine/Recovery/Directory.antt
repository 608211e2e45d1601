-- ===== src/Engine/Recovery/Directory.antt =====
-- storage/engine.rs, `open_with_config`: opening an engine on a directory.
use nesso.Base.{
  ℕ, ◌<◌, ◌^◌, ◌≡◌, refl, ap, Option, none, some, List, [], ◌∷◌, All, All-take, All-drop,
  All-append, All-replicate, get_or-All, All-weaken, length, take, drop, ltb, arith, IsU8,
  Option-cases, Bool-cases, inl, inr, get_or, replicate, ◌-◌, ◌+◌,
}
use nesso.Base.Bytes.{IsByte}
use nesso.Base.Keys.{DistinctKeys, insert-All, insert-DistinctKeys, remove-DistinctKeys, lookup-All}
use nesso.Base.Maps.{Map, lookup, is_some}
use nesso.Disk.{Disk, bytes_of, open_segment, write_inode, set_len}
use nesso.Io.{Result, ok, err}
use nesso.Record.{Record, decode}
use nesso.Record.Frame.{Decodes-of_decode}
use nesso.Wal.{
  iter_all, open_wal, open_active, recover_compaction, remove_segments, remove_plan_file, plan_file,
}
use nesso.Wal.Reader.{WalReader, read_bytes, new_reader}
use nesso.Wal.Reader.Agrees.{Stands, iter_all-Stands}
use nesso.Engine.{Engine, EngineState, new_state}
use nesso.Engine.Recovery.{open_engine, recover}
use nesso.Engine.Recovery.Ascending.{iter_all-IsAscending}
use nesso.Engine.Recovery.Replay.{IsLog, Replays, recover-Replays}
use nesso.Wal.Scan.{valid_prefix, extract_payload_len}
use nesso.Queue.Invariant.{IsValid as IsQueue}

-- A directory in which each number of a segment has one file, its name the one written for the
-- number, and files hold bytes. Other names are not modelled.
pub record IsDirectory (d : Disk) : Type 0 where
  pub names : DistinctKeys d.segments
  pub bytes : All (λ e. All IsByte e.1) d.inodes

bytes_of-bytes : (d : Disk) (inode : ℕ) → IsDirectory d → All IsByte (bytes_of d inode)
bytes_of-bytes d inode h = elim (Option-cases (lookup inode d.inodes)) [
  | inl missing ↦ rw missing tt
  | inr (bs, found) ↦
      rw found (lookup-All (λ (e : ℕ × List ℕ). All IsByte e.1) inode bs d.inodes h.bytes found)
]

write_inode-IsDirectory :
    (d : Disk) (inode : ℕ) (bs : List ℕ)
    → IsDirectory d
    → All IsByte bs
    → IsDirectory (write_inode d inode bs)
write_inode-IsDirectory d inode bs h k = record {
  names = h.names;
  bytes = insert-All (λ (e : ℕ × List ℕ). All IsByte e.1) inode bs d.inodes k h.bytes;
}

open_segment-IsDirectory : (d : Disk) (id : ℕ) → IsDirectory d → IsDirectory (open_segment d id).1
unfolding open_segment
open_segment-IsDirectory d id h = elim (Option-cases (lookup id d.segments)) [
  | inr (inode, found) ↦ rw (open_segment, found) h
  | inl missing ↦
      rw (open_segment, missing)
        (record {
          names = insert-DistinctKeys id d.next_inode d.segments h.names;
          bytes =
              insert-All (λ (e : ℕ × List ℕ). All IsByte e.1) d.next_inode [] d.inodes tt h.bytes;
        })
]

remove_segments-DistinctKeys :
    (ids : List ℕ) (names : Map ℕ) → DistinctKeys names → DistinctKeys (remove_segments ids names)
remove_segments-DistinctKeys [] names h = h
remove_segments-DistinctKeys (id ∷ ids) names h = elim (Bool-cases (ltb 1 id)) [
  | inl later ↦ rw later (remove_segments-DistinctKeys ids _ (remove-DistinctKeys id names h))
  | inr first ↦ rw first (remove_segments-DistinctKeys ids names h)
]

remove_plan_file-rest :
    (d : Disk)
    → ((remove_plan_file d).segments ≡ d.segments) × ((remove_plan_file d).inodes ≡ d.inodes)
remove_plan_file-rest d = ground arith

recover_compaction-IsDirectory : (d : Disk) → IsDirectory d → IsDirectory (recover_compaction d)
unfolding recover_compaction
recover_compaction-IsDirectory d h =
    let (names, inodes) = remove_plan_file-rest d in
    elim (Option-cases (plan_file d)) [
      | inl no_plan ↦ rw (recover_compaction, no_plan) h
      | inr (ids, plan) ↦ elim (Bool-cases (is_some d.compacting)) [
        | inl unfinished ↦
            rw (recover_compaction, plan, unfinished)
              (record { names = rw names h.names; bytes = rw inodes h.bytes })
        | inr swapped ↦
            rw (recover_compaction, plan, swapped)
              (record {
                names = remove_segments-DistinctKeys ids d.segments h.names;
                bytes = rw inodes h.bytes;
              })
      ]
    ]

set_len-bytes : (n : ℕ) (bs : List ℕ) → All IsByte bs → All IsByte (set_len n bs)
set_len-bytes n bs h =
    All-append IsByte (take n bs) (replicate (n - length bs) 0) (All-take IsByte n bs h)
      (All-replicate IsByte (n - length bs) 0 (omega arith))

module _ (crc32 : List ℕ → ℕ) where
  open_active-IsDirectory :
      (d : Disk) (id : ℕ) (size : Option ℕ)
      → IsDirectory d
      → IsDirectory (open_active crc32 d id size).1
  unfolding open_active
  open_active-IsDirectory d id size h =
      let (inode, d') = open_segment d id in
      let h' = open_segment-IsDirectory d id h in
      let raw = bytes_of d' inode in
      let end = valid_prefix crc32 raw in
      elim (Bool-cases (ltb end (length raw))) [
        | inl torn ↦ rw torn (
            write_inode-IsDirectory d' inode (set_len end raw) h'
              (set_len-bytes end raw (bytes_of-bytes d' inode h')))
        | inr whole ↦ rw whole h'
      ]

  pub open_wal-IsDirectory :
      (d : Disk) (size : Option ℕ) → IsDirectory d → IsDirectory (open_wal crc32 d size).1
  unfolding open_wal
  open_wal-IsDirectory d size h =
      let recovered = recover_compaction-IsDirectory d h in
      open_active-IsDirectory (record (recover_compaction d) { compacting = none }) _ size
        (record { names = recovered.names; bytes = recovered.bytes })

  -- A priority is read from one byte.
  read_bytes-priority :
      (bytes : List ℕ) (offset : ℕ) (r : Record)
      → All IsByte bytes
      → read_bytes crc32 bytes offset ≡ ok (some r)
      → IsU8 r.priority
  unfolding read_bytes
  read_bytes-priority bytes offset r h e =
      let frame =
        take (19 + extract_payload_len (take 19 (drop offset bytes))) (drop offset bytes) in
      let decoded : decode crc32 frame ≡ some r = ground (arith, e) in
      let byte : IsByte (get_or frame 6 0) =
        get_or-All IsByte frame 6 0 (omega arith)
          (All-take IsByte _ (drop offset bytes) (All-drop IsByte offset bytes h)) in
      omega (arith, byte, (Decodes-of_decode crc32 frame r decoded).priority)

  pub iter_all-IsLog :
      (d : Disk) → IsDirectory d → length (iter_all crc32 d) < 2 ^ 64 → IsLog (iter_all crc32 d)
  iter_all-IsLog d h room = record {
    ascending = iter_all-IsAscending crc32 d h.names;
    priorities =
        All-weaken (Stands crc32 d) (λ (x : ℕ × ℕ × Record). IsU8 x.2.priority)
          (λ x s.
            read_bytes-priority (bytes_of d s.inode) x.1 x.2 (bytes_of-bytes d s.inode h) s.read)
          (iter_all crc32 d) (iter_all-Stands crc32 d);
    counted = room;
  }

  -- The end of `open_with_config`.
  abbrev engine_of : Disk → Result EngineState × WalReader → Result Engine
  engine_of d (recovered, reader) = elim recovered [
    | err k ↦ err k
    | ok s ↦ ok (record { inner = s; reader = reader; disk = d; notified = 0 })
  ]

  pub open_engine-IsLog :
      (now : ℕ) (d : Disk)
      → let d' = (open_wal crc32 d none).1 in
        IsLog (iter_all crc32 d')
        → (e : Engine) × (open_engine crc32 now d ≡ ok e)
          × (e.disk ≡ d')
          × Replays now (iter_all crc32 d') e.inner
          × IsQueue e.inner.ready_queue
          × ((recover crc32 now new_reader d' (new_state (open_wal crc32 d none).0)).0 ≡ ok e.inner)
  unfolding open_engine
  open_engine-IsLog now d h =
      let (wal, d') = open_wal crc32 d none in
      let (s, reader, recovered, replays, queue) =
        recover-Replays crc32 now new_reader d' wal tt h in
      (
        record { inner = s; reader = reader; disk = d'; notified = 0 },
        ap (engine_of d') recovered,
        refl,
        replays,
        queue,
        ap (λ (a : Result EngineState × WalReader). a.0) recovered,
      )

  -- Opening an engine succeeds on every directory in which each segment has one file, under the
  -- name written for its number, and files hold bytes, whatever the bytes are and wherever a
  -- compaction was interrupted, if its log has less than 2 ^ 64 records and the system calls of
  -- opening succeed. On the directory as opening the log leaves it, the ready tasks and the leases
  -- are then those that the last record of each task tells of; a task that is not over has its
  -- index entry at its last record and its payload at its last creation or, if the log has none, at
  -- its last record; and the ready queue is valid.
  pub open_engine-Replays :
      (now : ℕ) (d : Disk)
      → IsDirectory d
      → let d' = (open_wal crc32 d none).1 in
        length (iter_all crc32 d') < 2 ^ 64
        → (e : Engine) × (open_engine crc32 now d ≡ ok e)
          × (e.disk ≡ d')
          × Replays now (iter_all crc32 d') e.inner
          × IsQueue e.inner.ready_queue
  open_engine-Replays now d h room =
      let (e, opened, disk, replays, queue, _) =
        open_engine-IsLog now d
          (iter_all-IsLog (open_wal crc32 d none).1 (open_wal-IsDirectory d none h) room) in
      (e, opened, disk, replays, queue)
