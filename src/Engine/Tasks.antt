-- ===== src/Engine/Tasks.antt =====
-- Where the engine keeps its tasks: a live task is ready or leased, and never both.
pub mod Lists
pub mod Operations
pub mod Failures
pub mod Steps
pub mod Rounds
pub mod Reach
use nesso.Base.{
  ℕ, ◌+◌, ◌^◌, ◌≤◌, ◌<◌, ◌≡◌, ◌≢◌, Bool, true, false, ◌||◌, none, some, List, [], ◌∷◌, All, IsU8,
  IsU64, ◌==◌,
}
use nesso.Base.Maps.{Map, lookup, contains}
use nesso.Queue.Invariant.{to_list, IsValid as IsQueue}
use nesso.Task.{TaskRef, LeaseInfo, max_retries}
use nesso.Engine.{EngineState, Loc}

-- The ids of a list of tasks are pairwise different.
abbrev pub Distinct : List TaskRef → Type 0
Distinct [] = Unit {0}
Distinct (t ∷ ts) = All (λ u. u.id ≢ t.id) ts × Distinct ts

-- A ready task: known, not leased, with retries left, and with a place in the log.
abbrev pub IsReady : ℕ → Map LeaseInfo → Map Loc → TaskRef → Type 0
IsReady next_id leased data_index t =
    (t.id < next_id)
    × (t.retries < max_retries)
    × IsU8 t.priority
    × (lookup t.id leased ≡ none)
    × (contains t.id data_index ≡ true)

abbrev pub IsLeased : ℕ → Map Loc → ℕ → LeaseInfo → Type 0
IsLeased next_id data_index id lease =
    (id < next_id)
    × (lease.retries < max_retries)
    × IsU8 lease.priority
    × (contains id data_index ≡ true)

pub record IsValid (s : EngineState) : Type 0 where
  pub queue : IsQueue s.ready_queue
  pub ids : IsU64 s.next_id
  pub ready : All (IsReady s.next_id s.leased s.data_index) (to_list s.ready_queue)
  pub distinct : Distinct (to_list s.ready_queue)
  pub leases :
      (id : ℕ) (lease : LeaseInfo)
      → lookup id s.leased ≡ some lease
      → IsLeased s.next_id s.data_index id lease

abbrev pub holds : ℕ → List TaskRef → Bool
holds id [] = false
holds id (t ∷ ts) = t.id == id || holds id ts

-- No live task is lost: what has a place in the log is ready or leased.
pub record IsAccounted (s : EngineState) : Type 0 where
  pub accounted :
      (id : ℕ)
      → contains id s.data_index ≡ true
      → (holds id (to_list s.ready_queue) || contains id s.leased) ≡ true
