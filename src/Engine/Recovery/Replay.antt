-- ===== src/Engine/Recovery/Replay.antt =====
-- storage/engine.rs, `recover`: the state of the tasks is a function of the log.
use nesso.Base.{
  ℕ, ◌+◌, ◌^◌, ◌<◌, ◌≡◌, refl, ap, sym, ◌∙◌, false, Option, none, some, List, [], ◌∷◌, All, length,
  if◌then◌else◌, arith, Option-cases, inl, inr, IsU8, subst,
}
use nesso.Base.Maps.{lookup, contains}
use nesso.Disk.{Disk}
use nesso.Io.{ok}
use nesso.Queue
use nesso.Queue.{PriorityBucketQueue}
use nesso.Queue.Invariant.{to_list, IsValid as IsQueue, new-IsValid}
use nesso.Record.{Record}
use nesso.Task.{TaskRef}
use nesso.Wal.{iter_all, Wal}
use nesso.Wal.Reader.{WalReader}
use nesso.Wal.Reader.Agrees.{IsCurrent, iter_all-Stands}
use nesso.Engine.{EngineState, Loc, new_state, new_with_cache_capacity}
use nesso.Base.Sort.{sort}
use nesso.Engine.Recovery.{index_record, index_records, restore_entries, recover}
use nesso.Engine.Recovery.Log.{
  or_else, last_created, payload_place, Fate, fate, lease_in, is_live, place_of, latest_from-All,
  latest_from-DistinctKeys, latest_from-length, ready_in, arrive, of_task, latest, IsAscending,
}
use nesso.Engine.Recovery.Indexing.{
  index_records-created, index_records-Indexed, Tracks, index_records-Tracks,
}
use nesso.Engine.Recovery.Restoring.{
  restore-place, restore_all, restore_entries-restore_all, Found, lease_or, restore-data_index,
  restore-index, restore-leased,
}
use nesso.Engine.Recovery.Requeue.{restore_all-view, restore_all-ready_queue}

-- The tasks of an engine are those that the log tells of.
pub record Agrees (now : ℕ) (log : List (ℕ × ℕ × Record)) (s : EngineState) : Type 0 where
  pub ready : to_list s.ready_queue ≡ arrive [] (ready_in now (latest log))
  pub leased :
      (id : ℕ)
      → lookup id s.leased ≡ of_task none (λ r. lease_in (fate now r)) (lookup id (latest log))
  pub placed :
      (id : ℕ)
      → contains id s.data_index
        ≡ of_task false (λ r. is_live (fate now r)) (lookup id (latest log))

-- And its indexes have the places of the last record and of the payload of each task that is not
-- over.
pub record Replays (now : ℕ) (log : List (ℕ × ℕ × Record)) (s : EngineState) : Type 0 where
  pub agrees : Agrees now log s
  pub indexed : (id : ℕ) → lookup id s.index ≡ place_of now (lookup id (latest log))
  pub located : (id : ℕ) → lookup id s.data_index ≡ payload_place now log id

lease_or-none : (f : Fate) → lease_or f none ≡ lease_in f
lease_or-none (Fate.ready n) = refl
lease_or-none (Fate.held lease) = refl
lease_or-none Fate.over = refl

-- A log that recovery can read: places grow along it, priorities are bytes, and it fits the
-- counters.
pub record IsLog (log : List (ℕ × ℕ × Record)) : Type 0 where
  pub ascending : IsAscending log
  pub priorities : All (λ x. IsU8 x.2.priority) log
  pub counted : length log < 2 ^ 64

-- A state whose indexes are those of the log, and that has no task yet.
record IsIndexed (log : List (ℕ × ℕ × Record)) (s : EngineState) : Type 0 where
  tracks : Tracks s.index s.data_index (latest log)
  created : (id : ℕ) → lookup id s.data_index ≡ last_created id log
  no_leases : s.leased ≡ []
  no_tasks : s.ready_queue ≡ Queue.new

module _ (now : ℕ) (log : List (ℕ × ℕ × Record)) (s : EngineState) (t : IsIndexed log s) where
  restored-leased :
      (j : ℕ)
      → lookup j (restore_all now s (latest log)).leased
        ≡ of_task none (λ r. lease_in (fate now r)) (lookup j (latest log))
  restored-leased j =
      let view =
        restore_all-view now j (λ s. lookup j s.leased) (λ loc r. lease_or (fate now r))
          (λ s id loc r. restore-leased now s id loc r j) (latest log) s
          (latest_from-DistinctKeys [] log tt) in
      let none_yet : lookup j s.leased ≡ none = rw t.no_leases (unfold lookup in refl) in
      elim (Option-cases (lookup j (latest log))) [
        | inl absent ↦ rw absent (rw absent at view ∙ none_yet)
        | inr ((loc, r), found) ↦
            rw found ((rw (found, none_yet) at view) ∙ lease_or-none (fate now r))
      ]

  restored-placed :
      (j : ℕ)
      → contains j (restore_all now s (latest log)).data_index
        ≡ of_task false (λ r. is_live (fate now r)) (lookup j (latest log))
  restored-placed j =
      let view =
        restore_all-view now j (λ s. contains j s.data_index) (λ loc r b. is_live (fate now r))
          (λ s id loc r. restore-data_index now s id loc r j) (latest log) s
          (latest_from-DistinctKeys [] log tt) in
      elim (Option-cases (lookup j (latest log))) [
        | inl absent ↦ rw absent (rw absent at view ∙ ground (arith, t.tracks.known j, absent))
        | inr ((loc, r), found) ↦ rw found (rw found at view)
      ]

  restored-indexed :
      (j : ℕ)
      → lookup j (restore_all now s (latest log)).index ≡ place_of now (lookup j (latest log))
  restored-indexed j =
      let view =
        restore_all-view now j (λ s. lookup j s.index)
          (λ loc r o. if is_live (fate now r) then o else none)
          (λ s id loc r. restore-index now s id loc r j) (latest log) s
          (latest_from-DistinctKeys [] log tt) in
      elim (Option-cases (lookup j (latest log))) [
        | inl absent ↦ rw absent ((rw absent at view) ∙ rw absent at (t.tracks.places j))
        | inr ((loc, r), found) ↦ rw found (
            (rw found at view)
            ∙ ap (λ (o : Option Loc). if is_live (fate now r) then o else none)
                (rw found at (t.tracks.places j)))
      ]

  restored-located :
      (j : ℕ) → lookup j (restore_all now s (latest log)).data_index ≡ payload_place now log j
  restored-located j =
      let view =
        restore_all-view now j (λ s. lookup j s.data_index)
          (λ loc r o. if is_live (fate now r) then or_else o (some loc) else none)
          (λ s id loc r. restore-place now s id loc r j) (latest log) s
          (latest_from-DistinctKeys [] log tt) in
      elim (Option-cases (lookup j (latest log))) [
        | inl absent ↦ rw absent (rw absent at view ∙ ground (arith, t.tracks.known j, absent))
        | inr ((loc, r), found) ↦ rw found (
            (rw found at view)
            ∙ ap (λ (o : Option Loc). if is_live (fate now r) then or_else o (some loc) else none)
                (t.created j))
      ]

  restored-Replays :
      IsLog log
      → Replays now log (restore_all now s (latest log))
        × IsQueue (restore_all now s (latest log)).ready_queue
  restored-Replays h =
      let priorities =
        latest_from-All (λ (e : ℕ × (Loc × Record)). IsU8 e.1.1.priority) [] log tt h.priorities in
      let room : s.ready_queue.len + length (latest log) < 2 ^ 64 =
        omega (arith, latest_from-length [] log, h.counted, no_length) in
      let (v, order) =
        restore_all-ready_queue (latest log) now s (subst IsQueue (sym t.no_tasks) new-IsValid)
          priorities room in
      (
        record {
          agrees = record {
            ready =
                order ∙ ap (λ (ts : List TaskRef). arrive ts (ready_in now (latest log))) no_order;
            leased = restored-leased;
            placed = restored-placed;
          };
          indexed = restored-indexed;
          located = restored-located;
        },
        v,
      )
    where
      no_length : s.ready_queue.len ≡ 0
      no_length = rw t.no_tasks (unfold Queue.new in refl)

      no_order : to_list s.ready_queue ≡ []
      no_order = rw t.no_tasks (unfold Queue.new in refl)

index_records-rest :
    (log : List (ℕ × ℕ × Record)) (s : EngineState)
    → ((index_records s log).leased ≡ s.leased)
      × ((index_records s log).ready_queue ≡ s.ready_queue)
unfolding index_records index_record
index_records-rest [] s = (refl, refl)
index_records-rest (x ∷ log) s = index_records-rest log (index_record s x)

or_else-none : (o : Option Loc) → or_else o none ≡ o
or_else-none none = refl
or_else-none (some loc) = refl

new-IsIndexed :
    (wal : Wal) (log : List (ℕ × ℕ × Record)) → IsIndexed log (index_records (new_state wal) log)
unfolding new_state new_with_cache_capacity lookup
new-IsIndexed wal log =
    let (leased, queue) = index_records-rest log (new_state wal) in
    record {
      tracks =
          index_records-Tracks log (new_state wal) []
            (record { places = λ id. refl; known = λ id h. h });
      created =
          λ id. index_records-created log (new_state wal) id ∙ or_else-none (last_created id log);
      no_leases = leased;
      no_tasks = queue;
    }

module _ (crc32 : List ℕ → ℕ) where
  -- Recovery cannot fail on a log that is in order, if the reader's open files are those of the
  -- directory. What it restores is told by the last record of each task alone: ready are the tasks
  -- of the records that say so and of the leases that ran out, served in the order of their last
  -- records within a priority, with their retries; leased are those whose lease has time left, with
  -- that lease. Exactly the tasks that are not over have a place for their payload, that of their
  -- last creation or, without one in the log, of their last record; their index entry is the place
  -- of the last record.
  pub recover-Replays :
      (now : ℕ) (reader : WalReader) (d : Disk) (wal : Wal)
      → IsCurrent d reader
      → IsLog (iter_all crc32 d)
      → (s : EngineState) × (reader' : WalReader) × (recover crc32 now reader d (new_state wal)
          ≡ (ok s, reader'))
        × Replays now (iter_all crc32 d) s
        × IsQueue s.ready_queue
  unfolding recover
  recover-Replays now reader d wal c h =
      let log = iter_all crc32 d in
      let s = index_records (new_state wal) log in
      let indexed = index_records-Indexed log (new_state wal) [] h.ascending (
        unfold new_state new_with_cache_capacity sort in
        record { order = refl; distinct = tt; behind = tt }) in
      let found = latest_from-All (Found crc32 d) [] log tt (iter_all-Stands crc32 d) in
      let (reader', done) = restore_entries-restore_all crc32 (latest log) now reader d s c found in
      let (replays, v) = restored-Replays now log s (new-IsIndexed wal log) h in
      (
        restore_all now s (latest log),
        reader',
        ap (λ (entries : List (ℕ × Loc)). restore_entries crc32 now reader d s entries)
              indexed.order
            ∙ done,
        replays,
        v,
      )
