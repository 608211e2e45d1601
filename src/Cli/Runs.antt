-- ===== src/Cli/Runs.antt =====
-- Small command lines.
use Prim.Native.String.{String}
use nesso.Base.{◌≡◌, refl, List, [], ◌∷◌}
use nesso.GroupCommit.{SyncMode}
use nesso.Cli.{Options, Outcome, parse_args, flag_of, set_value, mode_of}

abbrev defaults : Options
defaults = record {
  http_workers = 4;
  batch_window_ms = 2;
  max_batch_size = 64;
  idle_commit_threshold_us = 0;
  sync_mode = SyncMode.standard;
  data_dir = "nesso_data";
  bind_addr = "127.0.0.1:8080";
}

abbrev bound : List String
bound = "ignored" ∷ "--bind" ∷ "--help" ∷ []

abbrev synced : List String
synced = "--sync-mode" ∷ "Full" ∷ []

read_bound : parse_args bound defaults ≡ Outcome.run (record defaults { bind_addr = "--help" })
unfolding parse_args flag_of set_value
read_bound = refl

read_synced :
    parse_args synced defaults
    ≡ Outcome.run (record defaults { sync_mode = SyncMode.full_hardware })
unfolding parse_args flag_of set_value mode_of
read_synced = refl

read_missing : parse_args ("--bind" ∷ []) defaults ≡ Outcome.exit_missing
unfolding parse_args flag_of
read_missing = refl
