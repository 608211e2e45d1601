-- ===== src/Engine/Runs/Payloads.antt =====
-- Compaction of one closed segment, with a task that was created and leased.
use nesso.Base.{ℕ, none, List, [], ◌∷◌, ◌++◌}
use nesso.Disk.{Disk}
use nesso.Record.{Record, OpType, encode}
use nesso.Wal.Compaction.{Survivors}

abbrev no_sum : List ℕ → ℕ
no_sum bytes = 0

abbrev created : Record
created = record { id = 1; op_type = OpType.created; priority = 4; payload = 10 ∷ [] }

abbrev leased : Record
leased = record {
  id = 1;
  op_type = OpType.leased;
  priority = 4;
  payload = 0 ∷ 0 ∷ 0 ∷ 7 ∷ 0 ∷ 0 ∷ 0 ∷ 0 ∷ 0 ∷ 0 ∷ 0 ∷ 9 ∷ 0 ∷ [];
}

abbrev disk : Disk
disk = record {
  segments = (1, 0) ∷ (2, 1) ∷ [];
  inodes = (0, encode no_sum created ++ encode no_sum leased) ∷ (1, []) ∷ [];
  next_inode = 2;
  compacting = none;
  plan = none;
  swap = none;
}

abbrev survivors : Survivors
survivors = record { created_payloads = (1, 10 ∷ []) ∷ []; latest_records = (1, leased) ∷ [] }
