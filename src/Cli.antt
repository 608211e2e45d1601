-- ===== src/Cli.antt =====
-- main.rs: the loop over the arguments of the server's command line.
pub mod Arguments
mod Runs
use Prim.Native.Char.{code}
use Prim.Native.String.{String}
use text.Mathlib.Text.{◌==◌ as str_eq}
use nesso.Base.{
  ℕ, ◌+◌, ◌-◌, ◌*◌, ◌^◌, Bool, true, false, ◌&&◌, ◌||◌, Option, none, some, List, [], ◌∷◌, leb, ltb,
  if◌then◌else◌, map,
}
use nesso.GroupCommit.{SyncMode, GroupCommitConfig}

-- The variables of `main` that the loop sets.
pub record Options : Type 0 where
  pub http_workers : ℕ
  pub batch_window_ms : ℕ
  pub max_batch_size : ℕ
  pub idle_commit_threshold_us : ℕ
  pub sync_mode : SyncMode
  pub data_dir : String
  pub bind_addr : String

-- How the loop ends: it is through, it returns the error of a number that does not parse, it exits
-- with 1 behind a message, or it prints the help.
pub data Outcome : Type 0 where
  run : Options → Outcome
  parse_error : Outcome
  exit_missing : Outcome
  exit_mode : Outcome
  help : Outcome

pub data Flag : Type 0 where
  http_workers batch_window_ms max_batch_size idle_commit_threshold_us sync_mode data_dir bind :
      Flag
  asks_help : Flag
  other : Flag

-- The patterns of `match args[i].as_str()`.
unfoldable pub flag_of : String → Flag
flag_of s =
    if str_eq s "--http-workers"
    then Flag.http_workers
    else if str_eq s "--batch-window-ms"
    then Flag.batch_window_ms
    else if str_eq s "--max-batch-size"
    then Flag.max_batch_size
    else if str_eq s "--idle-commit-threshold-us"
    then Flag.idle_commit_threshold_us
    else if str_eq s "--sync-mode"
    then Flag.sync_mode
    else if str_eq s "--data-dir"
    then Flag.data_dir
    else if str_eq s "--bind"
    then Flag.bind
    else if str_eq s "--help" || str_eq s "-h"
    then Flag.asks_help
    else Flag.other

abbrev pub codes : String → List ℕ
codes String.[] = []
codes (String.◌∷◌ c s) = code c ∷ codes s

-- The digits of `str::parse`, which fails on any other character and past 64 bits.
abbrev parse_digits : ℕ → List ℕ → Option ℕ
parse_digits n [] = some n
parse_digits n (c ∷ cs) =
    let m = n * 10 + (c - b'0') in
    let rest = parse_digits m cs in
    if leb b'0' c && leb c b'9' && ltb m (2 ^ 64) then rest else none

-- `parse::<u64>()`: digits, at least one, behind a sign `+` or none.
unfoldable pub parse_number : List ℕ → Option ℕ
parse_number [] = none
parse_number (c ∷ []) = parse_digits 0 (c ∷ [])
parse_number (c ∷ d ∷ cs) =
    if leb b'+' c && leb c b'+' then parse_digits 0 (d ∷ cs) else parse_digits 0 (c ∷ d ∷ cs)

abbrev to_lower : ℕ → ℕ
to_lower c = if leb b'A' c && leb c b'Z' then c + 32 else c

abbrev same_codes : List ℕ → List ℕ → Bool
same_codes [] [] = true
same_codes (a ∷ xs) (b ∷ ys) = leb a b && leb b a && same_codes xs ys
same_codes _ _ = false

-- `to_lowercase` of the letters of ASCII: no other letter has one of these words' letters in lower
-- case.
unfoldable pub mode_of : String → Option SyncMode
mode_of s =
    let word = map to_lower (codes s) in
    if same_codes word (codes "standard") || same_codes word (codes "posix")
    then some SyncMode.standard
    else if same_codes word (codes "full") || same_codes word (codes "hardware")
    then some SyncMode.full_hardware
    else none

abbrev with_number : Option ℕ → (ℕ → Options) → Outcome
with_number none f = Outcome.parse_error
with_number (some n) f = Outcome.run (f n)

abbrev with_mode : Option SyncMode → Options → Outcome
with_mode none o = Outcome.exit_mode
with_mode (some m) o = Outcome.run (record o { sync_mode = m })

-- A flag with its value.
unfoldable pub set_value : Flag → String → Options → Outcome
set_value Flag.http_workers v o =
    with_number (parse_number (codes v)) (λ n. record o { http_workers = n })
set_value Flag.batch_window_ms v o =
    with_number (parse_number (codes v)) (λ n. record o { batch_window_ms = n })
set_value Flag.max_batch_size v o =
    with_number (parse_number (codes v)) (λ n. record o { max_batch_size = n })
set_value Flag.idle_commit_threshold_us v o =
    with_number (parse_number (codes v)) (λ n. record o { idle_commit_threshold_us = n })
set_value Flag.sync_mode v o = with_mode (mode_of v) o
set_value Flag.data_dir v o = Outcome.run (record o { data_dir = v })
set_value Flag.bind v o = Outcome.run (record o { bind_addr = v })
set_value Flag.asks_help v o = Outcome.help
set_value Flag.other v o = Outcome.run o

abbrev takes_value : Flag → Bool
takes_value Flag.asks_help = false
takes_value Flag.other = false
takes_value _ = true

abbrev pub and_then : Outcome → (Options → Outcome) → Outcome
and_then (Outcome.run o) f = f o
and_then Outcome.parse_error f = Outcome.parse_error
and_then Outcome.exit_missing f = Outcome.exit_missing
and_then Outcome.exit_mode f = Outcome.exit_mode
and_then Outcome.help f = Outcome.help

-- The arguments from `i` on. A flag that takes a value takes the argument behind it, whatever it
-- is.
unfoldable pub parse_args : List String → Options → Outcome
parse_args [] o = Outcome.run o
parse_args (a ∷ []) o =
    if takes_value (flag_of a) then Outcome.exit_missing else set_value (flag_of a) a o
parse_args (a ∷ v ∷ args) o =
    let behind_value = λ (o' : Options). parse_args args o' in
    let behind_flag = λ (o' : Options). parse_args (v ∷ args) o' in
    if takes_value (flag_of a)
    then and_then (set_value (flag_of a) v o) behind_value
    else and_then (set_value (flag_of a) a o) behind_flag

-- The configuration that `main` makes of the options; durations are in nanoseconds.
unfoldable pub group_commit_config : Options → GroupCommitConfig
group_commit_config o = record {
  batch_window = o.batch_window_ms * 1000000;
  max_batch_size = o.max_batch_size;
  idle_commit_threshold = o.idle_commit_threshold_us * 1000;
  sync_mode = o.sync_mode;
}
