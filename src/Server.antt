-- ===== src/Server.antt =====
-- server.rs: the registry of queues and the request handlers, over the engines. The runtime is left
-- out: a handler is a function of the registry, and what its system calls answer is an argument.
pub mod Poll
pub mod Queues
pub mod Waiting
pub mod Statuses
mod Runs
use Prim.Native.String.{String}
use text.Mathlib.Text.{◌==◌ as str_eq}
use nesso.Base.{
  ℕ, ◌+◌, Bool, true, false, Option, none, some, List, [], ◌∷◌, leb, ◌==◌, ◌⊎◌, inl, inr,
  if◌then◌else◌,
}
use nesso.Cache.{Payload}
use nesso.Disk.{Disk, empty_disk}
use nesso.GroupCommit.{GroupCommitConfig, default_config}
use nesso.Io.{ErrorKind, Result, ok, err, Outcome}
use nesso.Record.{Record}
use nesso.Wal.{AppendIo, open_wal}
use nesso.Engine.{Engine, set_on_task_ready, push, ack, nack, status}
use nesso.Engine.Fallback.{pop_and_lease}
use nesso.Engine.Recovery.{open_engine}
use nesso.Engine.Compact.{compact}

-- The variants carry a message, which is left out.
pub data ApiError : Type 0 where
  not_found conflict bad_request internal : ApiError

-- `into_response`
unfoldable pub status_code : ApiError → ℕ
status_code ApiError.not_found = 404
status_code ApiError.conflict = 409
status_code ApiError.bad_request = 400
status_code ApiError.internal = 500

-- `impl From<std::io::Error> for ApiError`
unfoldable pub from_io : ErrorKind → ApiError
from_io ErrorKind.not_found = ApiError.not_found
from_io ErrorKind.permission_denied = ApiError.conflict
from_io _ = ApiError.internal

-- `queues` are the open engines; `dirs` the directories under `data_dir` of queues that are not
-- open.
pub record AppState : Type 0 where
  pub dirs : List (String × Disk)
  pub queues : List (String × Engine)
  pub shutting_down : Bool
  pub group_commit_config : GroupCommitConfig

unfoldable pub new_with_config : List (String × Disk) → GroupCommitConfig → AppState
new_with_config dirs config = record {
  dirs = dirs;
  queues = [];
  shutting_down = false;
  group_commit_config = config;
}

unfoldable pub new_app : List (String × Disk) → AppState
new_app dirs = new_with_config dirs default_config

module _ {ℓ} {V : Type ℓ} where
  unfoldable pub find : String → List (String × V) → Option V
  find name [] = none
  find name ((other, v) ∷ rest) =
      let behind = find name rest in if str_eq other name then some v else behind

  -- The entry of `name` is replaced, or put last.
  unfoldable pub put : List (String × V) → String → V → List (String × V)
  put [] name v = (name, v) ∷ []
  put ((other, w) ∷ rest) name v =
      let kept = (other, w) ∷ put rest name v in
      if str_eq other name then (other, v) ∷ rest else kept

-- What a handler answers: a status and a body, or an error.
pub data Reply {ℓ} (A : Type ℓ) : Type ℓ where
  replies : (code : ℕ) → A → Reply A
  fails : ApiError → Reply A

abbrev pub code_of {ℓ} : {A : Type ℓ} → Reply A → ℕ
code_of (replies code _) = code
code_of (fails e) = status_code e

-- `if sync { engine.sync()?; }` behind an operation that succeeded.
abbrev pub synced_reply {ℓ} : {A : Type ℓ} → Bool → Outcome → Reply A → Reply A
synced_reply false o r = r
synced_reply true none r = r
synced_reply true (some k) r = fails (from_io k)

abbrev pub io_reply {ℓ} : {A : Type ℓ} → (code : ℕ) → Bool → Outcome → Result A → Reply A
io_reply code sync o (err k) = fails (from_io k)
io_reply code sync o (ok a) = synced_reply sync o (replies code a)

-- `queue_ctx.notify.notify_one()`, which is also what the callback of the engine does: `notified`
-- counts both.
abbrev notify_one {ℓ} : {A : Type ℓ} → Reply A × Engine → Reply A × Engine
notify_one (replies code a, e) = (replies code a, record e { notified = e.notified + 1 })
notify_one (fails k, e) = (fails k, e)

abbrev pub set_queue : AppState → String → Engine → AppState
set_queue s name e = record s { queues = put s.queues name e }

module _ (crc32 : List ℕ → ℕ) where
  abbrev opened : AppState → String → Disk → Result Engine → Result Engine × AppState
  opened s name d (err k) = (err k, record s { dirs = put s.dirs name (open_wal crc32 d none).1 })
  opened s name d (ok e) = (ok (set_on_task_ready e), set_queue s name (set_on_task_ready e))

  abbrev dir_of : Option Disk → Disk
  dir_of none = empty_disk
  dir_of (some d) = d

  -- The directory is created if it is missing, and the engine opened on it.
  unfoldable pub get_or_create_queue : AppState → String → (now : ℕ) → Result Engine × AppState
  get_or_create_queue s name now = elim (find name s.queues) [
    | some e ↦ (ok e, s)
    | none ↦ let d = dir_of (find name s.dirs) in opened s name d (open_engine crc32 now d)
  ]

  unfoldable pub get_existing_queue : AppState → String → (now : ℕ) → Result Engine × AppState
  get_existing_queue s name now = elim (find name s.queues) [
    | some e ↦ (ok e, s)
    | none ↦ elim (find name s.dirs) [
      | none ↦ (err ErrorKind.not_found, s)
      | some d ↦ get_or_create_queue s name now
    ]
  ]

  -- A handler on the engine of a queue: the engine it leaves is the queue's.
  abbrev on_queue :
      {A : Type 0}
      → String
      → (Engine → Reply A × Engine)
      → Result Engine × AppState
      → Reply A × AppState
  on_queue name f (err k, s) = (fails (from_io k), s)
  on_queue name f (ok e, s) = let (r, e') = f e in (r, set_queue s name e')

  abbrev push_decoded : Option Payload → ℕ → Bool → AppendIo → Outcome → Engine → Reply ℕ × Engine
  push_decoded none priority sync io o e = (fails ApiError.bad_request, e)
  push_decoded (some payload) priority sync io o e =
      let (r, e') = push crc32 e payload priority io in notify_one (io_reply 201 sync o r, e')

  -- `decoded` is what base64 makes of the payload of the request.
  unfoldable pub push_handler :
      AppState
      → String
      → (now : ℕ) → (decoded : Option Payload) → (priority : ℕ) → (sync : Bool) → AppendIo
      → Outcome
      → Reply ℕ × AppState
  push_handler s name now decoded priority sync io o =
      on_queue name (push_decoded decoded priority sync io o) (get_or_create_queue s name now)

  unfoldable pub ack_handler :
      AppState
      → String
      → (now : ℕ) → (id : ℕ) → (consumer_id : ℕ) → (sync : Bool) → AppendIo
      → Outcome
      → Reply (Unit {0}) × AppState
  ack_handler s name now id consumer_id sync io o =
      on_queue name
        (λ e. let (r, e') = ack crc32 e id consumer_id io in (io_reply 200 sync o r, e'))
        (get_existing_queue s name now)

  unfoldable pub nack_handler :
      AppState
      → String
      → (now : ℕ) → (id : ℕ) → (consumer_id : ℕ) → (sync : Bool) → AppendIo
      → Outcome
      → Reply (Unit {0}) × AppState
  nack_handler s name now id consumer_id sync io o =
      on_queue name
        (λ e.
          let (r, e') = nack crc32 e id consumer_id io in notify_one (io_reply 200 sync o r, e'))
        (get_existing_queue s name now)

  unfoldable pub status_handler : AppState → String → (now : ℕ) → Reply (ℕ × ℕ) × AppState
  status_handler s name now =
      on_queue name (λ e. (replies 200 (status e), e)) (get_existing_queue s name now)

  unfoldable pub compact_handler :
      (others : Engine → Engine) → AppState → String → (now : ℕ) → Reply Bool × AppState
  compact_handler others s name now =
      on_queue name (λ e. let (r, e') = compact crc32 others e in (io_reply 200 false none r, e'))
        (get_existing_queue s name now)
