-- ===== src/Engine/Answers.antt =====
-- storage/engine.rs: what the operations answer and what they leave behind, branch by branch.
use nesso.Base.{
  ℕ, ◌≡◌, ◌≢◌, refl, none, some, List, [], ◌==◌, arith, Bool-cases, Option-cases, inl, inr, ==_iff,
}
use nesso.Base.Maps.{lookup, lookup-remove, lookup-insert_self}
use nesso.Disk.{Disk}
use nesso.Io.{ErrorKind, Result, ok, err}
use nesso.Record.{OpType, Record}
use nesso.Task.{LeaseInfo}
use nesso.Wal.{Wal, AppendIo, append}
use nesso.Engine.{Engine, EngineState, Loc, log_state, ack, ack_logged}

-- What is left of a task that is over: no lease, and no place in the log.
pub record IsGone (s : EngineState) (id : ℕ) : Type 0 where
  pub unleased : lookup id s.leased ≡ none
  pub unplaced : lookup id s.data_index ≡ none

-- The record that `ack` writes.
abbrev pub ack_record : ℕ → LeaseInfo → Record
ack_record id lease = record {
  id = id;
  op_type = OpType.acked;
  priority = lease.priority;
  payload = [];
}

module _ (crc32 : List ℕ → ℕ) where
  -- An ack of a task without a lease, or under another consumer's lease, is refused and changes
  -- nothing; one of the holder writes its record and, if that is written, ends the task for good.
  -- If it is not written the task keeps its lease and its place.
  pub data AckAnswers (e : Engine) (id consumer_id : ℕ) (io : AppendIo) : Type 0 where
    unknown :
        lookup id e.inner.leased ≡ none
        → ack crc32 e id consumer_id io ≡ (err ErrorKind.not_found, e)
        → AckAnswers e id consumer_id io
    denied :
        (lease : LeaseInfo)
        → lookup id e.inner.leased ≡ some lease
        → lease.consumer_id ≢ consumer_id
        → ack crc32 e id consumer_id io ≡ (err ErrorKind.permission_denied, e)
        → AckAnswers e id consumer_id io
    unlogged :
        (lease : LeaseInfo) (k : ErrorKind) (wal : Wal) (disk : Disk)
        → lookup id e.inner.leased ≡ some lease
        → lease.consumer_id ≡ consumer_id
        → append crc32 e.inner.wal e.disk io (ack_record id lease) ≡ (err k, wal, disk)
        → ack crc32 e id consumer_id io ≡ (err k, log_state e wal disk)
        → AckAnswers e id consumer_id io
    acked :
        (lease : LeaseInfo) (loc : Loc) (wal : Wal) (disk : Disk) (e' : Engine)
        → lookup id e.inner.leased ≡ some lease
        → lease.consumer_id ≡ consumer_id
        → append crc32 e.inner.wal e.disk io (ack_record id lease) ≡ (ok loc, wal, disk)
        → ack crc32 e id consumer_id io ≡ (ok tt, e')
        → IsGone e'.inner id
        → lookup id e'.inner.index ≡ some loc
        → e'.inner.ready_queue ≡ e.inner.ready_queue
        → AckAnswers e id consumer_id io

  ack_held :
      (e : Engine) (id consumer_id : ℕ) (io : AppendIo) (lease : LeaseInfo)
      (r : Result Loc × Wal × Disk)
      → lookup id e.inner.leased ≡ some lease
      → lease.consumer_id ≡ consumer_id
      → append crc32 e.inner.wal e.disk io (ack_record id lease) ≡ r
      → ack crc32 e id consumer_id io ≡ ack_logged e id r
      → AckAnswers e id consumer_id io
  ack_held e id c io lease (err k, wal, disk) held mine logged answer =
      AckAnswers.unlogged lease k wal disk held mine logged answer
  ack_held e id c io lease (ok loc, wal, disk) held mine logged answer =
      AckAnswers.acked lease loc wal disk _ held mine logged answer
        (record {
          unleased = ground (arith, lookup-remove id id e.inner.leased);
          unplaced = ground (arith, lookup-remove id id e.inner.data_index);
        })
        (lookup-insert_self id loc e.inner.index) refl

  -- Every ack is answered in one of these four ways.
  pub ack-answers :
      (e : Engine) (id consumer_id : ℕ) (io : AppendIo) → AckAnswers e id consumer_id io
  unfolding ack
  ack-answers e id c io = elim (Option-cases (lookup id e.inner.leased)) [
    | inl free ↦ AckAnswers.unknown free (rw (ack, free))
    | inr (lease, held) ↦ elim (Bool-cases (lease.consumer_id == c)) [
      | inl mine ↦
          ack_held e id c io lease (append crc32 e.inner.wal e.disk io (ack_record id lease)) held
            ((==_iff lease.consumer_id c).0 mine) refl (rw (ack, held, mine))
      | inr other ↦
          AckAnswers.denied lease held (λ same. ground (arith, ==_iff lease.consumer_id c))
            (rw (ack, held, other))
    ]
  ]
