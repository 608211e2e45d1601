-- ===== src/Disk.antt =====
-- The directory of a queue, as std::fs shows it: names of segments to inodes, inodes to bytes, and
-- the three names that compaction uses. A handle is an inode, so it outlives the removal of a name.
use nesso.Base.{ℕ, ◌+◌, ◌-◌, Option, none, some, List, [], ◌++◌, length, take, replicate}
use nesso.Base.Maps.{Map, lookup, insert}
use mathlib.Core.Option

pub record Disk : Type 0 where
  pub segments : Map ℕ  -- `nesso.{:05}.wal`
  pub inodes : Map (List ℕ)
  pub next_inode : ℕ
  pub compacting : Option ℕ  -- `nesso.00001.compacting`
  pub plan : Option (List ℕ)  -- `nesso.compaction_plan`, the ids that its text lists
  pub swap : Option (List ℕ)  -- `nesso.compaction_swap`

abbrev pub empty_disk : Disk
empty_disk = record {
  segments = [];
  inodes = [];
  next_inode = 0;
  compacting = none;
  plan = none;
  swap = none;
}

-- The bytes of an inode.
abbrev pub bytes_of : Disk → ℕ → List ℕ
bytes_of d inode = Option.get_or (lookup inode d.inodes) []

abbrev pub segment_bytes : Disk → ℕ → Option (List ℕ)
segment_bytes d id = Option.map (bytes_of d) (lookup id d.segments)

abbrev pub write_inode : Disk → ℕ → List ℕ → Disk
write_inode d inode bytes = record d { inodes = insert inode bytes d.inodes }

-- `OpenOptions … create(true)` on a segment: the inode that the name has, or a new empty one.
unfoldable pub open_segment : Disk → ℕ → ℕ × Disk
open_segment d id = elim (lookup id d.segments) [
  | some inode ↦ (inode, d)
  | none ↦ (
    d.next_inode,
    record d {
      segments = insert id d.next_inode d.segments;
      inodes = insert d.next_inode [] d.inodes;
      next_inode = d.next_inode + 1;
    },
  )
]

-- `set_len(n)`: cut off, or filled with zeros.
abbrev pub set_len : ℕ → List ℕ → List ℕ
set_len n bytes = take n bytes ++ replicate (n - length bytes) 0
