-- ===== src/Task.antt =====
-- The task records of storage/engine.rs.
use nesso.Base.{ℕ, Bool, ◌&&◌, ◌==◌}
use Prim.Native.Nat.{Ordering, compare}

pub record TaskRef : Type 0 where
  pub id : ℕ
  pub priority : ℕ
  pub retries : ℕ

-- `impl PartialEq for TaskRef`: the retries do not count.
unfoldable pub eq : TaskRef → TaskRef → Bool
eq a b = a.id == b.id && a.priority == b.priority

abbrev then_with : Ordering → Ordering → Ordering
then_with Ordering.eq o = o
then_with o _ = o

-- `impl Ord for TaskRef`: by priority, and among equals the older id is the greater.
unfoldable pub cmp : TaskRef → TaskRef → Ordering
cmp a b = then_with (compare a.priority b.priority) (compare b.id a.id)

pub record LeaseInfo : Type 0 where
  pub consumer_id : ℕ
  pub expire_timestamp : ℕ
  pub retries : ℕ
  pub priority : ℕ

-- `MAX_RETRIES`
abbrev pub max_retries : ℕ
max_retries = 3
