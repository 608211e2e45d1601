-- ===== src/Server/Statuses.antt =====
-- Which status an ack answers on an open queue, by what the engine knows of the task.
use Prim.Native.String.{String}
use nesso.Base.{ℕ, ◌≡◌, ◌≢◌, refl, Bool, true, false, none, some, List}
use nesso.Base.Maps.{lookup}
use nesso.Io.{ErrorKind, ok, err, Outcome}
use nesso.Task.{LeaseInfo}
use nesso.Disk.{Disk}
use nesso.Wal.{Wal, AppendIo, append}
use nesso.Engine.{Engine, Loc}
use nesso.Engine.Answers.{AckAnswers, ack-answers, ack_record}
use nesso.Server.{
  AppState, find, get_existing_queue, ack_handler, code_of, status_code, from_io, io_reply,
}

-- The status of an error of the engine, by its kind.
abbrev pub error_code : ErrorKind → ℕ
error_code ErrorKind.not_found = 404
error_code ErrorKind.permission_denied = 409
error_code _ = 500

-- The status behind an ack that was written, by what the sync answers if one is asked for.
abbrev pub synced_code : (sync : Bool) → Outcome → ℕ
synced_code false o = 200
synced_code true none = 200
synced_code true (some k) = error_code k

module _ (crc32 : List ℕ → ℕ) where
  -- What an ack over HTTP answers on an open queue: 404 if the task has no lease, 409 if another
  -- consumer has it, and to the holder 200 once the ack is written and, if asked for, synced. A
  -- failed append or sync answers by its error: 404, 409 or 500.
  pub data AckStatus (e : Engine) (id consumer_id : ℕ) (sync : Bool) (io : AppendIo) (o : Outcome)
      (code : ℕ) : Type 0 where
    unknown :
        lookup id e.inner.leased ≡ none → code ≡ 404 → AckStatus e id consumer_id sync io o code
    denied :
        (lease : LeaseInfo)
        → lookup id e.inner.leased ≡ some lease
        → lease.consumer_id ≢ consumer_id
        → code ≡ 409
        → AckStatus e id consumer_id sync io o code
    unlogged :
        (lease : LeaseInfo) (k : ErrorKind) (wal : Wal) (disk : Disk)
        → lookup id e.inner.leased ≡ some lease
        → lease.consumer_id ≡ consumer_id
        → append crc32 e.inner.wal e.disk io (ack_record id lease) ≡ (err k, wal, disk)
        → code ≡ error_code k
        → AckStatus e id consumer_id sync io o code
    acked :
        (lease : LeaseInfo) (loc : Loc) (wal : Wal) (disk : Disk)
        → lookup id e.inner.leased ≡ some lease
        → lease.consumer_id ≡ consumer_id
        → append crc32 e.inner.wal e.disk io (ack_record id lease) ≡ (ok loc, wal, disk)
        → code ≡ synced_code sync o
        → AckStatus e id consumer_id sync io o code

  error_code-from_io : (k : ErrorKind) → status_code (from_io k) ≡ error_code k
  unfolding status_code from_io
  error_code-from_io ErrorKind.not_found = refl
  error_code-from_io ErrorKind.permission_denied = refl
  error_code-from_io ErrorKind.invalid_data = refl
  error_code-from_io ErrorKind.unexpected_eof = refl
  error_code-from_io ErrorKind.other_error = refl

  synced_code-io_reply :
      (sync : Bool) (o : Outcome)
      → code_of (io_reply {0} {A = Unit {0}} 200 sync o (ok tt)) ≡ synced_code sync o
  synced_code-io_reply false o = refl
  synced_code-io_reply true none = refl
  synced_code-io_reply true (some k) = error_code-from_io k

  -- Every ack over HTTP on an open queue is answered in one of these four ways.
  pub ack_handler-status :
      (s : AppState) (name : String) (now id consumer_id : ℕ) (sync : Bool) (io : AppendIo)
      (o : Outcome) (e : Engine)
      → find name s.queues ≡ some e
      → AckStatus e id consumer_id sync io o
          (code_of (ack_handler crc32 s name now id consumer_id sync io o).0)
  unfolding ack_handler get_existing_queue from_io status_code
  ack_handler-status s name now id c sync io o e open_ = elim (ack-answers crc32 e id c io) [
    | AckAnswers.unknown free answer ↦
        AckStatus.unknown free (rw (ack_handler, get_existing_queue, open_, answer))
    | AckAnswers.denied lease held other answer ↦
        AckStatus.denied lease held other (rw (ack_handler, get_existing_queue, open_, answer))
    | AckAnswers.unlogged lease k wal disk held mine logged answer ↦
        AckStatus.unlogged lease k wal disk held mine logged
          (rw (ack_handler, get_existing_queue, open_, answer) (error_code-from_io k))
    | AckAnswers.acked lease loc wal disk e' held mine logged answer gone indexed ready ↦
        AckStatus.acked lease loc wal disk held mine logged
          (rw (ack_handler, get_existing_queue, open_, answer) (synced_code-io_reply sync o))
  ]
