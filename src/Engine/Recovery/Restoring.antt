-- ===== src/Engine/Recovery/Restoring.antt =====
-- storage/engine.rs, `recover`: what the second pass makes of the last records.
use nesso.Base.{
  ℕ, ◌≡◌, refl, ap, not, ◌&&◌, Option, none, some, List, [], ◌∷◌, All, ◌==◌, if◌then◌else◌, arith,
  map,
}
use nesso.Base.Maps.{Map, insert, remove, lookup, contains, lookup-insert, lookup-remove}
use nesso.Disk.{Disk}
use nesso.Io.{Result, ok}
use nesso.Queue
use nesso.Queue.{PriorityBucketQueue}
use nesso.Record.{Record, OpType}
use nesso.Task.{LeaseInfo}
use nesso.Wal.Reader.{WalReader}
use nesso.Wal.Reader.Agrees.{Stands, IsCurrent, read_at-Stands}
use nesso.Engine.{EngineState, Loc}
use nesso.Engine.Recovery.{restore, restore_op, restore_entries, carries_payload}
use nesso.Engine.Recovery.Log.{or_else, Latest, Fate, fate, fate_op, is_live}
use nesso.Engine.Recovery.Indexing.{key}

-- The second pass without the reads.
unfoldable pub restore_all : (now : ℕ) → EngineState → Latest → EngineState
restore_all now s [] = s
restore_all now s ((id, (loc, r)) ∷ l) = restore_all now (restore now s id loc r) l

-- A record that stands at the place of its entry.
abbrev pub Found : (List ℕ → ℕ) → Disk → ℕ × (Loc × Record) → Type 0
Found crc32 d (id, (loc, r)) = Stands crc32 d (loc.0, loc.1, r)

module _ (crc32 : List ℕ → ℕ) where
  -- No read of the second pass fails.
  pub restore_entries-restore_all :
      (l : Latest) (now : ℕ) (reader : WalReader) (d : Disk) (s : EngineState)
      → IsCurrent d reader
      → All (Found crc32 d) l
      → (reader' : WalReader) × (restore_entries crc32 now reader d s (map key l)
          ≡ (ok (restore_all now s l), reader'))
  unfolding restore_entries restore_all
  restore_entries-restore_all [] now reader d s c h = (reader, refl)
  restore_entries-restore_all ((id, (loc, r)) ∷ l) now reader d s c h =
      let (reader', answer, c') = read_at-Stands crc32 reader d (loc.0, loc.1, r) c h.0 in
      let (reader'', rest) =
        restore_entries-restore_all l now reader' d (restore now s id loc r) c' h.1 in
      let read = ap (λ (a : Result (Option Record) × WalReader). a.0) answer in
      let reader_left = ap (λ (a : Result (Option Record) × WalReader). a.1) answer in
      (reader'', rw (restore_entries, read, reader_left) rest)

abbrev pub requeue : ℕ → Record → Fate → PriorityBucketQueue → PriorityBucketQueue
requeue id r (Fate.ready n) q =
    Queue.push q (record { id = id; priority = r.priority; retries = n })
requeue id r (Fate.held lease) q = q
requeue id r Fate.over q = q

abbrev release : ℕ → Fate → Map LeaseInfo → Map LeaseInfo
release id (Fate.ready n) leased = leased
release id (Fate.held lease) leased = insert id lease leased
release id Fate.over leased = leased

-- The lease that a record gives, or the one that was there.
abbrev pub lease_or : Fate → Option LeaseInfo → Option LeaseInfo
lease_or (Fate.ready n) old = old
lease_or (Fate.held lease) old = some lease
lease_or Fate.over old = old

restore_op-ready_queue :
    (op : OpType) (now : ℕ) (s : EngineState) (id : ℕ) (r : Record)
    → (restore_op op now s (record r { id = id })).ready_queue
      ≡ requeue id r (fate_op op now r) s.ready_queue
restore_op-ready_queue OpType.created now s id r = refl
restore_op-ready_queue OpType.nacked now s id r = refl
restore_op-ready_queue OpType.expired now s id r = refl
restore_op-ready_queue OpType.leased now s id r = ground arith
restore_op-ready_queue OpType.acked now s id r = refl
restore_op-ready_queue OpType.dead_lettered now s id r = refl

restore_op-leased :
    (op : OpType) (now : ℕ) (s : EngineState) (id : ℕ) (r : Record)
    → (restore_op op now s (record r { id = id })).leased ≡ release id (fate_op op now r) s.leased
restore_op-leased OpType.created now s id r = refl
restore_op-leased OpType.nacked now s id r = refl
restore_op-leased OpType.expired now s id r = refl
restore_op-leased OpType.leased now s id r = ground arith
restore_op-leased OpType.acked now s id r = refl
restore_op-leased OpType.dead_lettered now s id r = refl

abbrev keep : ℕ → Fate → Map Loc → Map Loc
keep id (Fate.ready n) m = m
keep id (Fate.held lease) m = m
keep id Fate.over m = remove id m

restore_op-index :
    (op : OpType) (now : ℕ) (s : EngineState) (id : ℕ) (r : Record)
    → (restore_op op now s (record r { id = id })).index ≡ keep id (fate_op op now r) s.index
restore_op-index OpType.created now s id r = refl
restore_op-index OpType.nacked now s id r = refl
restore_op-index OpType.expired now s id r = refl
restore_op-index OpType.leased now s id r = ground arith
restore_op-index OpType.acked now s id r = refl
restore_op-index OpType.dead_lettered now s id r = refl

restore_op-data_index :
    (op : OpType) (now : ℕ) (s : EngineState) (id : ℕ) (r : Record)
    → (restore_op op now s (record r { id = id })).data_index
      ≡ keep id (fate_op op now r) s.data_index
restore_op-data_index OpType.created now s id r = refl
restore_op-data_index OpType.nacked now s id r = refl
restore_op-data_index OpType.expired now s id r = refl
restore_op-data_index OpType.leased now s id r = ground arith
restore_op-data_index OpType.acked now s id r = refl
restore_op-data_index OpType.dead_lettered now s id r = refl

carries-is_live :
    (op : OpType) (now : ℕ) (r : Record) → is_live (fate_op op now r) ≡ carries_payload op
carries-is_live OpType.created now r = refl
carries-is_live OpType.nacked now r = refl
carries-is_live OpType.expired now r = refl
carries-is_live OpType.leased now r = ground arith
carries-is_live OpType.acked now r = refl
carries-is_live OpType.dead_lettered now r = refl

lookup-keep :
    (f : Fate) (id j : ℕ) (m : Map Loc)
    → lookup j (keep id f m)
      ≡ (if id == j then (if is_live f then lookup j m else none) else lookup j m)
lookup-keep (Fate.ready n) id j m = ground arith
lookup-keep (Fate.held lease) id j m = ground arith
lookup-keep Fate.over id j m = ground (arith, lookup-remove id j m)

lookup-release :
    (f : Fate) (id j : ℕ) (m : Map LeaseInfo)
    → lookup j (release id f m) ≡ (if id == j then lease_or f (lookup j m) else lookup j m)
lookup-release (Fate.ready n) id j m = ground arith
lookup-release (Fate.held lease) id j m = ground (arith, lookup-insert id j lease m)
lookup-release Fate.over id j m = ground arith

-- The state in which the `match` of the second pass starts.
abbrev filled : EngineState → ℕ → Loc → OpType → EngineState
filled s id loc op = record s {
  data_index =
      if not (contains id s.data_index) && carries_payload op
      then insert id loc s.data_index
      else s.data_index;
}

-- The engine behind one record, task by task.
pub restore-data_index :
    (now : ℕ) (s : EngineState) (id : ℕ) (loc : Loc) (r : Record) (j : ℕ)
    → contains j (restore now s id loc r).data_index
      ≡ (if id == j then is_live (fate now r) else contains j s.data_index)
unfolding restore
restore-data_index now s id loc r j =
    rw (restore_op-data_index r.op_type now (filled s id loc r.op_type) id r) (
      ground (
        arith,
        lookup-keep (fate now r) id j (filled s id loc r.op_type).data_index,
        carries-is_live r.op_type now r,
        lookup-insert id j loc s.data_index,
      ))

pub restore-place :
    (now : ℕ) (s : EngineState) (id : ℕ) (loc : Loc) (r : Record) (j : ℕ)
    → lookup j (restore now s id loc r).data_index ≡ (
        if id == j
        then (if is_live (fate now r) then or_else (lookup j s.data_index) (some loc) else none)
        else lookup j s.data_index)
unfolding restore
restore-place now s id loc r j =
    rw (restore_op-data_index r.op_type now (filled s id loc r.op_type) id r) (
      ground (
        arith,
        lookup-keep (fate now r) id j (filled s id loc r.op_type).data_index,
        carries-is_live r.op_type now r,
        lookup-insert id j loc s.data_index,
      ))

pub restore-index :
    (now : ℕ) (s : EngineState) (id : ℕ) (loc : Loc) (r : Record) (j : ℕ)
    → lookup j (restore now s id loc r).index ≡ (
        if id == j
        then (if is_live (fate now r) then lookup j s.index else none)
        else lookup j s.index)
unfolding restore
restore-index now s id loc r j =
    rw (restore_op-index r.op_type now (filled s id loc r.op_type) id r)
      (lookup-keep (fate now r) id j s.index)

pub restore-leased :
    (now : ℕ) (s : EngineState) (id : ℕ) (loc : Loc) (r : Record) (j : ℕ)
    → lookup j (restore now s id loc r).leased
      ≡ (if id == j then lease_or (fate now r) (lookup j s.leased) else lookup j s.leased)
unfolding restore
restore-leased now s id loc r j =
    rw (restore_op-leased r.op_type now (filled s id loc r.op_type) id r)
      (lookup-release (fate now r) id j s.leased)

pub restore-ready_queue :
    (now : ℕ) (s : EngineState) (id : ℕ) (loc : Loc) (r : Record)
    → (restore now s id loc r).ready_queue ≡ requeue id r (fate now r) s.ready_queue
unfolding restore
restore-ready_queue now s id loc r =
    restore_op-ready_queue r.op_type now (filled s id loc r.op_type) id r
