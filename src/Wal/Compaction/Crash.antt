-- ===== src/Wal/Compaction/Crash.antt =====
-- storage/wal.rs: the swap of phase 2, and what `Wal::open` makes of a crash in the middle of it.
use nesso.Base.{
  elem, elem-append, ℕ, ◌≡◌, refl, sym, ◌∙◌, Bool, ◌&&◌, Option, none, some, List, [], ◌∷◌, ◌++◌,
  ltb, ◌==◌, if◌then◌else◌, arith, Bool-cases, inl, inr, ==_iff,
}
use nesso.Base.Maps.{Map, lookup, insert, remove, lookup-insert, lookup-remove}
use nesso.Disk.{Disk}
use nesso.Io.{ok}
use nesso.Wal.{recover_compaction, remove_segments}
use nesso.Wal.Compaction.{remove_closed, execute_compaction_phase2}

-- The closed segments but the first are removed.
abbrev pub removed : List ℕ → ℕ → Bool
removed closed id = ltb 1 id && elem id closed

lookup-remove_closed :
    (closed : List ℕ) (names : Map ℕ) (id : ℕ)
    → lookup id (remove_closed closed names) ≡ (if removed closed id then none else lookup id names)
unfolding remove_closed
lookup-remove_closed [] names id = ground (arith)
lookup-remove_closed (c ∷ closed) names id = elim (Bool-cases (ltb 1 c)) [
  | inl later ↦ rw later (
      ground (
        arith,
        lookup-remove_closed closed (remove c names) id,
        lookup-remove c id names,
        ==_iff c id,
      ))
  | inr first ↦ rw first (ground (arith, lookup-remove_closed closed names id, ==_iff c id))
]

lookup-remove_segments :
    (closed : List ℕ) (names : Map ℕ) (id : ℕ)
    → lookup id (remove_segments closed names)
      ≡ (if removed closed id then none else lookup id names)
lookup-remove_segments [] names id = ground (arith)
lookup-remove_segments (c ∷ closed) names id = elim (Bool-cases (ltb 1 c)) [
  | inl later ↦ rw later (
      ground (
        arith,
        lookup-remove_segments closed (remove c names) id,
        lookup-remove c id names,
        ==_iff c id,
      ))
  | inr first ↦ rw first (ground (arith, lookup-remove_segments closed names id, ==_iff c id))
]

-- What a segment is behind a swap to the new file `inode`.
abbrev pub swapped_segment : Disk → ℕ → List ℕ → ℕ → Option ℕ
swapped_segment d inode closed id =
    if removed closed id then none else if 1 == id then some inode else lookup id d.segments

-- Phase 2 with the file of phase 1 there succeeds: segment 1 is that file, the other closed
-- segments are gone, and every other segment is what it was.
pub execute_compaction_phase2-segments :
    (d : Disk) (inode : ℕ) (closed : List ℕ) (id : ℕ)
    → d.compacting ≡ some inode
    → let (answer, d') = execute_compaction_phase2 d closed in
      (answer ≡ ok tt) × (lookup id d'.segments ≡ swapped_segment d inode closed id)
unfolding execute_compaction_phase2
execute_compaction_phase2-segments d inode closed id e =
    rw (execute_compaction_phase2, e)
      (
        refl,
        ground (
          arith,
          lookup-remove_closed closed (insert 1 inode d.segments) id,
          lookup-insert 1 id inode d.segments,
        ),
      )

-- The directory when a crash stops phase 2 behind the rename and the removals of `done`.
abbrev pub crashed : Disk → ℕ → List ℕ → List ℕ → Disk
crashed d inode done rest = record d {
  segments = remove_closed done (insert 1 inode d.segments);
  compacting = none;
  plan = some (done ++ rest);
}

recover_compaction-crashed :
    (d : Disk) (inode : ℕ) (done rest : List ℕ) (id : ℕ)
    → lookup id (recover_compaction (crashed d inode done rest)).segments
      ≡ swapped_segment d inode (done ++ rest) id
unfolding recover_compaction
recover_compaction-crashed d inode done rest id = ground (
  arith,
  lookup-remove_segments (done ++ rest) (remove_closed done (insert 1 inode d.segments)) id,
  lookup-remove_closed done (insert 1 inode d.segments) id,
  lookup-insert 1 id inode d.segments,
  elem-append id done rest,
)

-- Wherever a crash stops phase 2 behind the rename, with `done` removed and `rest` not, opening the
-- log leaves each segment as phase 2 would have left it.
pub recover_compaction-completes :
    (d : Disk) (inode : ℕ) (done rest : List ℕ) (id : ℕ)
    → d.compacting ≡ some inode
    → lookup id (recover_compaction (crashed d inode done rest)).segments
      ≡ lookup id (execute_compaction_phase2 d (done ++ rest)).1.segments
recover_compaction-completes d inode done rest id e =
    recover_compaction-crashed d inode done rest id
    ∙ sym (execute_compaction_phase2-segments d inode (done ++ rest) id e).1
