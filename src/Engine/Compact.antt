-- ===== src/Engine/Compact.antt =====
-- storage/engine.rs, `Engine::compact`: the plan under the lock, phase 1 without it, and phase 2
-- with the remapping of the indexes under the lock again.
use nesso.Base.{ℕ, Bool, true, false, ◌||◌, none, some, List, [], ◌∷◌, ◌==◌, if◌then◌else◌}
use nesso.Base.Maps.{Map, lookup, insert}
use nesso.Disk.{Disk}
use nesso.Io.{Result, ok, err}
use nesso.Wal.Compaction.{
  CompactionStats, plan_compaction, execute_compaction_phase1, execute_compaction_phase2,
}
use nesso.Wal.Reader.{clear_cache}
use nesso.Engine.{Engine, Loc}

-- `closed_segments.contains(&seg)`
abbrev pub is_closed : List ℕ → ℕ → Bool
is_closed [] seg = false
is_closed (c ∷ closed) seg = c == seg || is_closed closed seg

-- A task that still stands in a closed segment stands in segment 1 now.
unfoldable pub remap : List ℕ → ℕ → ℕ → Map Loc → Map Loc
remap closed id offset index = elim (lookup id index) [
  | none ↦ index
  | some (seg, _) ↦ if is_closed closed seg then insert id (1, offset) index else index
]

unfoldable pub remap_all : List ℕ → Map ℕ → Map Loc → Map Loc
remap_all closed [] index = index
remap_all closed ((id, offset) ∷ offsets) index =
    remap_all closed offsets (remap closed id offset index)

abbrev swapped : Engine → List ℕ → Map ℕ → Result (Unit {0}) × Disk → Result Bool × Engine
swapped e closed offsets (err k, d) = (err k, record e { disk = d })
swapped e closed offsets (ok _, d) = (
  ok true,
  record e {
    inner = record (e.inner) {
      data_index = remap_all closed offsets e.inner.data_index;
      index = remap_all closed offsets e.inner.index;
    };
    reader = clear_cache e.reader;
    disk = d;
  },
)

unfoldable pub compact_swap : Engine → List ℕ → Map ℕ → Result Bool × Engine
compact_swap e closed offsets = swapped e closed offsets (execute_compaction_phase2 e.disk closed)

module _ (crc32 : List ℕ → ℕ) (others : Engine → Engine) where
  -- Between the phases others may run: they see the directory with the new segment beside the old.
  abbrev phase1_done :
      Engine → List ℕ → Result ((CompactionStats × Map ℕ) × Disk) → Result Bool × Engine
  phase1_done e closed (err k) = (err k, e)
  phase1_done e closed (ok ((_, offsets), d)) =
      compact_swap (others (record e { disk = d })) closed offsets

  unfoldable pub compact : Engine → Result Bool × Engine
  compact e = elim (plan_compaction e.disk e.inner.wal.active_segment_id) [
    | none ↦ (ok false, e)
    | some closed ↦ phase1_done e closed (execute_compaction_phase1 crc32 e.disk closed)
  ]
