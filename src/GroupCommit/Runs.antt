-- ===== src/GroupCommit/Runs.antt =====
-- The run of storage/group_commit.rs in which batch 1 has failed and batch 2 is being synced.
use nesso.Base.{◌≡◌, ◌≢◌, All, refl, none, some}
use nesso.Base.Maps.{lookup}
use nesso.Io.{ErrorKind, Outcome}
use nesso.GroupCommit.{default_config, turn}
use nesso.GroupCommit.Threads.{Pc, System, Reach}
use nesso.GroupCommit.Threads.Errors.{second, second-Reach, lost_error}
use nesso.GroupCommit.Threads.Fresh.{returned_after_fsync}
use nesso.GroupCommit.Threads.Serial.{IsSerial, Reach-IsSerial, turn_own_batch}

abbrev failing : System
failing = second default_config ErrorKind.other_error

failing-Reach : Reach default_config failing
failing-Reach = second-Reach default_config ErrorKind.other_error

Reach-IsSerial_example : IsSerial failing
Reach-IsSerial_example = Reach-IsSerial failing-Reach

returned_after_fsync_example :
    ((res : Outcome) × (lookup 1 failing.finished ≡ some res)) × All (λ d. d ≢ 1) (failing.seen 0)
returned_after_fsync_example =
    returned_after_fsync 0 1 (some ErrorKind.other_error) failing-Reach refl

turn_own_batch_example : lookup 1 failing.finished ≡ some (some ErrorKind.other_error)
turn_own_batch_example =
    turn_own_batch 1 1 0 (some ErrorKind.other_error) failing-Reach refl (unfold turn in refl) refl

lost_error_example :
    (s : System) × Reach default_config s
    × (lookup 1 s.finished ≡ some (some ErrorKind.other_error))
    × (s.threads 1 ≡ Pc.returned 1 none)
lost_error_example = lost_error default_config ErrorKind.other_error
