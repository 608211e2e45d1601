-- ===== src/Cli/Arguments.antt =====
-- A command line that gives each option once.
use Prim.Native.String.{String}
use nesso.Base.{List, [], ◌∷◌}

-- Each flag with a value, in the order of the help.
abbrev pub every_flag : (workers window batch idle mode dir addr : String) → List String
every_flag workers window batch idle mode dir addr =
    "--http-workers" ∷ workers ∷ "--batch-window-ms" ∷ window ∷ "--max-batch-size" ∷ batch
    ∷ "--idle-commit-threshold-us" ∷ idle ∷ "--sync-mode" ∷ mode ∷ "--data-dir" ∷ dir ∷ "--bind"
    ∷ addr ∷ []
