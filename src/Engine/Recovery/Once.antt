-- ===== src/Engine/Recovery/Once.antt =====
-- storage/engine.rs, `recover`: a task gets one lease at most.
use nesso.Base.{
  ℕ, ◌≡◌, List, [], ◌∷◌, Option, none, some, arith, inl, inr, subst, ltb, leb, length, Bool-cases,
}
use nesso.Base.Bytes.{from_be_bytes, slice}
use nesso.Base.Keys.{DistinctKeys, insert-DistinctKeys}
use nesso.Disk.{Disk}
use nesso.Io.{ok}
use nesso.Record.{Record, OpType}
use nesso.Wal.{iter_all}
use nesso.Wal.Reader.{WalReader, read_at}
use nesso.Engine.{EngineState, Loc}
use nesso.Engine.Recovery.{
  index_record, index_records, restore, restore_op, restore_read, restore_entries, recover,
  by_location,
}
use nesso.Engine.Recovery.Ids.{Result-cases, ok-injective}

restore_op-DistinctKeys :
    (op : OpType) (now : ℕ) (s : EngineState) (r : Record)
    → DistinctKeys s.leased
    → DistinctKeys (restore_op op now s r).leased
restore_op-DistinctKeys OpType.created now s r d = d
restore_op-DistinctKeys OpType.nacked now s r d = d
restore_op-DistinctKeys OpType.expired now s r d = d
restore_op-DistinctKeys OpType.leased now s r d = elim (Bool-cases (leb 13 (length r.payload))) [
  | inr short ↦ rw short d
  | inl long ↦ elim (Bool-cases (ltb now (from_be_bytes (slice 4 12 r.payload)))) [
    | inl held ↦ rw (long, held) (insert-DistinctKeys r.id _ s.leased d)
    | inr over ↦ rw (long, over) d
  ]
]
restore_op-DistinctKeys OpType.acked now s r d = d
restore_op-DistinctKeys OpType.dead_lettered now s r d = d

index_records-DistinctKeys :
    (rs : List (ℕ × ℕ × Record)) (s : EngineState)
    → DistinctKeys s.leased
    → DistinctKeys (index_records s rs).leased
unfolding index_records index_record
index_records-DistinctKeys [] s d = d
index_records-DistinctKeys (r ∷ rs) s d = index_records-DistinctKeys rs (index_record s r) d

module _ (crc32 : List ℕ → ℕ) where
  restore_read-DistinctKeys :
      (now : ℕ) (s : EngineState) (id : ℕ) (loc : Loc) (o : Option Record)
      → DistinctKeys s.leased
      → DistinctKeys (restore_read crc32 now s id loc o).leased
  unfolding restore
  restore_read-DistinctKeys now s id loc none d = d
  restore_read-DistinctKeys now s id loc (some r) d =
      restore_op-DistinctKeys r.op_type now _ (record r { id = id }) d

  restore_entries-DistinctKeys :
      (entries : List (ℕ × Loc)) (now : ℕ) (reader : WalReader) (d : Disk) (s s' : EngineState)
      → (restore_entries crc32 now reader d s entries).0 ≡ ok s'
      → DistinctKeys s.leased
      → DistinctKeys s'.leased
  unfolding restore_entries
  restore_entries-DistinctKeys [] now reader d s s' e h =
      subst (λ (t : EngineState). DistinctKeys t.leased) (ok-injective s s' e) h
  restore_entries-DistinctKeys ((id, loc) ∷ entries) now reader d s s' e h =
      let r = read_at crc32 reader d loc.0 loc.1 in
      elim (Result-cases r.0) [
        | inl (k, failed) ↦ absurd (ground (arith, (rw (restore_entries, failed) at e)))
        | inr (o, read) ↦
            restore_entries-DistinctKeys entries now r.1 d (restore_read crc32 now s id loc o) s'
              (rw (restore_entries, read) at e) (restore_read-DistinctKeys now s id loc o h)
      ]

  pub recover-DistinctKeys :
      (now : ℕ) (reader : WalReader) (d : Disk) (s s' : EngineState)
      → (recover crc32 now reader d s).0 ≡ ok s'
      → DistinctKeys s.leased
      → DistinctKeys s'.leased
  unfolding recover
  recover-DistinctKeys now reader d s s' e h =
      let t = index_records s (iter_all crc32 d) in
      restore_entries-DistinctKeys (by_location t.index) now reader d t s' e
        (index_records-DistinctKeys (iter_all crc32 d) s h)
