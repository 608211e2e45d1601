-- ===== src/Server/Queues.antt =====
-- server.rs: the listing of queues, the constructors of the registry, and the shutdown.
use Prim.Native.String.{String, compare}
use text.Mathlib.Text.{is_le}
use nesso.Base.{Bool, true, false, none, some, List, [], ◌∷◌, ◌++◌, map, if◌then◌else◌}
use nesso.Base.Maps.{is_some}
use nesso.Base.Sort.{sort}
use nesso.Disk.{Disk}
use nesso.GroupCommit.{GroupCommitConfig, default_config}
use nesso.Io.{Result, ok, err, Outcome}
use nesso.Engine.{Engine}
use nesso.Server.{AppState, Reply, replies, find, new_with_config}

-- `with_shutdown_token_and_config`: the token may have been cancelled already.
unfoldable pub with_shutdown_token_and_config :
    List (String × Disk) → (cancelled : Bool) → GroupCommitConfig → AppState
with_shutdown_token_and_config dirs cancelled config = record (new_with_config dirs config) {
  shutting_down = cancelled;
}

unfoldable pub with_shutdown_token : List (String × Disk) → (cancelled : Bool) → AppState
with_shutdown_token dirs cancelled = with_shutdown_token_and_config dirs cancelled default_config

-- The directories of queues that are not open.
abbrev closed_names : List (String × Engine) → List (String × Disk) → List String
closed_names queues [] = []
closed_names queues ((name, d) ∷ dirs) =
    let rest = closed_names queues dirs in if is_some (find name queues) then rest else name ∷ rest

-- Every directory under `data_dir` is listed; none is if `data_dir` cannot be read.
unfoldable pub list_queues_handler : (readable : Bool) → AppState → Reply (List String)
list_queues_handler readable s =
    let found = map (λ e. e.0) s.queues ++ closed_names s.queues s.dirs in
    replies 200 (if readable then sort (λ a b. is_le (compare a b)) found else [])

-- `Engine::shutdown`, by what the flush answers: its error, and whether the worker was stopped.
unfoldable pub shutdown : (flushed : Outcome) → Result (Unit {0}) × Bool
shutdown none = (ok tt, true)
shutdown (some k) = (err k, false)

abbrev stopped_before :
    String
    → Result (Unit {0}) × Bool
    → Result (Unit {0}) × List String
    → Result (Unit {0}) × List String
stopped_before name (err k, stopped) rest = (err k, [])
stopped_before name (ok u, stopped) (r, names) = (r, name ∷ names)

-- `shutdown_all_queues`, with the queues whose worker was stopped. The first flush that fails ends
-- it.
unfoldable pub shutdown_all_queues :
    List (String × Engine) → (flushed : String → Outcome) → Result (Unit {0}) × List String
shutdown_all_queues [] flushed = (ok tt, [])
shutdown_all_queues ((name, e) ∷ queues) flushed =
    stopped_before name (shutdown (flushed name)) (shutdown_all_queues queues flushed)
