-- ===== src/Engine/Payloads.antt =====
-- The payload of a task through compaction (storage/wal.rs) and back out of the read that
-- pop_and_lease makes (storage/engine.rs).
use nesso.Base.{ℕ, ◌≤◌, ◌≡◌, some, List, length}
use nesso.Base.Maps.{lookup}
use nesso.Cache.{Payload}
use nesso.Io.{ok}
use nesso.Record.{Record, OpType}
use nesso.Wal.Reader.{read_bytes}
use nesso.Wal.Scan.Laws.{Fits}
use nesso.Wal.Compaction.{Survivors, consolidate}
use nesso.Disk.{Disk, bytes_of}
use nesso.Wal.Compaction.Phase1.{IsPlanned}
use nesso.Engine.Fallback.{user_payload}

-- What the engine writes: a record of creation holds the payload, and a lease is 13 bytes long.
abbrev pub Carries : OpType → Record → Payload → Type 0
Carries OpType.created r p = r.payload ≡ p
Carries OpType.leased r p = 13 ≤ length r.payload
Carries OpType.nacked r p = Unit {0}
Carries OpType.expired r p = Unit {0}
Carries OpType.acked r p = ⊥
Carries OpType.dead_lettered r p = ⊥

-- Survivors all of which fit when they are written.
abbrev pub AllFit : Survivors → Type 0
AllFit s =
    (i : ℕ) (x : Record)
    → lookup i s.latest_records ≡ some x
    → Fits (consolidate s.created_payloads x)

module _ (crc32 : List ℕ → ℕ) where
  -- A read of the file at the offset gives a record from which a pop takes this payload.
  abbrev pub ReadsPayload : List ℕ → ℕ → Payload → Type 0
  ReadsPayload bytes offset p =
      (r : Record) × (read_bytes crc32 bytes offset ≡ ok (some r))
      × (user_payload r.op_type r.payload ≡ p)

  -- Phase 1 ends well, and keeps this payload of this task.
  pub record Keeps (d : Disk) (closed : List ℕ) (id : ℕ) (p : Payload) : Type 0 where
    pub phase1 : IsPlanned crc32 d closed
    pub offset : ℕ
    pub found : lookup id phase1.offsets ≡ some offset
    pub reads : ReadsPayload (bytes_of phase1.disk d.next_inode) offset p
