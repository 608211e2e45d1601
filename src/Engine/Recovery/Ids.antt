-- ===== src/Engine/Recovery/Ids.antt =====
-- storage/engine.rs, `recover`: the ids that are given out after a restart are new.
use nesso.Base.{
  ℕ, ◌+◌, ◌-◌, ◌⊎◌, ◌^◌, ◌≤◌, ◌<◌, ◌≡◌, refl, sym, ap, ◌∙◌, none, some, Option, List, [], ◌∷◌, All,
  if◌then◌else◌, arith, inl, inr, not, ◌&&◌, IsU64,
}
use nesso.Base.Maps.{contains, insert}
use nesso.Disk.{Disk}
use nesso.Io.{ErrorKind, Result, ok, err}
use nesso.Record.{Record, OpType}
use nesso.Wal.{iter_all}
use nesso.Wal.Reader.{WalReader, read_at}
use nesso.Engine.{EngineState, Loc}
use nesso.Engine.Recovery.{
  index_record, index_records, restore, restore_op, restore_read, carries_payload, restore_entries,
  recover, by_location,
}

-- Every record's id is below the bound.
abbrev pub IdsBelow : ℕ → List (ℕ × ℕ × Record) → Type 0
IdsBelow n = All (λ (r : ℕ × ℕ × Record). r.2.id < n)

index_record-next_id :
    (s : EngineState) (r : ℕ × ℕ × Record)
    → r.2.id + 1 < 2 ^ 64
    → (r.2.id < (index_record s r).next_id) × (s.next_id ≤ (index_record s r).next_id)
unfolding index_record
index_record-next_id s r h = ground arith

index_records-next_id :
    (rs : List (ℕ × ℕ × Record)) (s : EngineState)
    → IdsBelow (2 ^ 64 - 1) rs
    → IdsBelow (index_records s rs).next_id rs × (s.next_id ≤ (index_records s rs).next_id)
unfolding index_records
index_records-next_id [] s h = (tt, omega arith)
index_records-next_id (r ∷ rs) s (h, hs) =
    let (mine, kept) = index_record-next_id s r (omega arith) in
    let (theirs, more) = index_records-next_id rs (index_record s r) hs in
    ((omega (arith), theirs), omega (arith))

index_records-IsU64 :
    (rs : List (ℕ × ℕ × Record)) (s : EngineState)
    → IsU64 s.next_id
    → IsU64 (index_records s rs).next_id
unfolding index_records index_record
index_records-IsU64 [] s h = h
index_records-IsU64 (r ∷ rs) s h = index_records-IsU64 rs (index_record s r) (ground arith)

restore_op-next_id :
    (op : OpType) (now : ℕ) (s : EngineState) (r : Record)
    → (restore_op op now s r).next_id ≡ s.next_id
restore_op-next_id OpType.created now s r = refl
restore_op-next_id OpType.nacked now s r = refl
restore_op-next_id OpType.expired now s r = refl
restore_op-next_id OpType.leased now s r = ground arith
restore_op-next_id OpType.acked now s r = refl
restore_op-next_id OpType.dead_lettered now s r = refl

pub Result-cases :
    {A : Type 0} (r : Result A) → ((k : ErrorKind) × (r ≡ err k)) ⊎ ((a : A) × (r ≡ ok a))
Result-cases (err k) = inl (k, refl)
Result-cases (ok a) = inr (a, refl)

pub ok-injective : (s s' : EngineState) → ok s ≡ ok s' → s ≡ s'
ok-injective s s' e = cc

restore_op-wal :
    (op : OpType) (now : ℕ) (s : EngineState) (r : Record) → (restore_op op now s r).wal ≡ s.wal
restore_op-wal OpType.created now s r = refl
restore_op-wal OpType.nacked now s r = refl
restore_op-wal OpType.expired now s r = refl
restore_op-wal OpType.leased now s r = ground arith
restore_op-wal OpType.acked now s r = refl
restore_op-wal OpType.dead_lettered now s r = refl

restore-rest :
    (now : ℕ) (s : EngineState) (id : ℕ) (loc : Loc) (r : Record)
    → ((restore now s id loc r).next_id ≡ s.next_id) × ((restore now s id loc r).wal ≡ s.wal)
unfolding restore
restore-rest now s id loc r =
    let s' : EngineState = record s {
      data_index =
          if not (contains id s.data_index) && carries_payload r.op_type
          then insert id loc s.data_index
          else s.data_index;
    } in
    (
      restore_op-next_id r.op_type now s' (record r { id = id }),
      restore_op-wal r.op_type now s' (record r { id = id }),
    )

index_records-wal :
    (rs : List (ℕ × ℕ × Record)) (s : EngineState) → (index_records s rs).wal ≡ s.wal
unfolding index_records index_record
index_records-wal [] s = refl
index_records-wal (r ∷ rs) s = index_records-wal rs (index_record s r)

module _ (crc32 : List ℕ → ℕ) where
  restore_read-rest :
      (now : ℕ) (s : EngineState) (id : ℕ) (loc : Loc) (o : Option Record)
      → ((restore_read crc32 now s id loc o).next_id ≡ s.next_id)
        × ((restore_read crc32 now s id loc o).wal ≡ s.wal)
  restore_read-rest now s id loc none = (refl, refl)
  restore_read-rest now s id loc (some r) = restore-rest now s id loc r

  -- The second pass leaves the next id and the log as they are.
  restore_entries-rest :
      (entries : List (ℕ × Loc)) (now : ℕ) (reader : WalReader) (d : Disk) (s s' : EngineState)
      → (restore_entries crc32 now reader d s entries).0 ≡ ok s'
      → (s'.next_id ≡ s.next_id) × (s'.wal ≡ s.wal)
  unfolding restore_entries
  restore_entries-rest [] now reader d s s' e =
      let same = sym (ok-injective s s' e) in
      (ap (λ (t : EngineState). t.next_id) same, ap (λ (t : EngineState). t.wal) same)
  restore_entries-rest ((id, loc) ∷ entries) now reader d s s' e =
      let r = read_at crc32 reader d loc.0 loc.1 in
      elim (Result-cases r.0) [
        | inl (k, failed) ↦ absurd (ground (arith, (rw (restore_entries, failed) at e)))
        | inr (o, read) ↦
            let here = restore_read-rest now s id loc o in
            let later =
              restore_entries-rest entries now r.1 d (restore_read crc32 now s id loc o) s'
                (rw (restore_entries, read) at e) in
            (later.0 ∙ here.0, later.1 ∙ here.1)
      ]

  pub recover-wal :
      (now : ℕ) (reader : WalReader) (d : Disk) (s s' : EngineState)
      → (recover crc32 now reader d s).0 ≡ ok s'
      → s'.wal ≡ s.wal
  unfolding recover
  recover-wal now reader d s s' e =
      let t = index_records s (iter_all crc32 d) in
      (restore_entries-rest (by_location t.index) now reader d t s' e).1
      ∙ index_records-wal (iter_all crc32 d) s

  pub recover-IsU64 :
      (now : ℕ) (reader : WalReader) (d : Disk) (s s' : EngineState)
      → IsU64 s.next_id
      → (recover crc32 now reader d s).0 ≡ ok s'
      → IsU64 s'.next_id
  unfolding recover
  recover-IsU64 now reader d s s' h e =
      let t = index_records s (iter_all crc32 d) in
      let same = (restore_entries-rest (by_location t.index) now reader d t s' e).0 in
      rw same (index_records-IsU64 (iter_all crc32 d) s h)

  -- If recovery succeeds on a log whose ids are below the largest number of 64 bits, the next id
  -- that the engine gives out is above the id of every record that is in the log then. An id whose
  -- records compaction has removed is not covered.
  pub recover-IdsBelow :
      (now : ℕ) (reader : WalReader) (d : Disk) (s s' : EngineState)
      → IdsBelow (2 ^ 64 - 1) (iter_all crc32 d)
      → (recover crc32 now reader d s).0 ≡ ok s'
      → IdsBelow s'.next_id (iter_all crc32 d)
  unfolding recover
  recover-IdsBelow now reader d s s' h e =
      let t = index_records s (iter_all crc32 d) in
      let same = (restore_entries-rest (by_location t.index) now reader d t s' e).0 in
      rw same (index_records-next_id (iter_all crc32 d) s h).0
