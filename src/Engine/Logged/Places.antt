-- ===== src/Engine/Logged/Places.antt =====
-- storage/engine.rs: the place that an engine keeps of a task is that of the last creation of it.
use nesso.Base.{
  ℕ, ◌+◌, ◌≡◌, refl, ap, sym, ◌∙◌, subst, false, none, some, List, [], ◌∷◌, ◌++◌, append_assoc,
  append-nil, leb, ◌==◌, arith, Bool-cases, Option-cases, inl, inr, add_u64,
}
use nesso.Base.Maps.{lookup, lookup-insert, contains}
use nesso.Cache.{Payload}
use nesso.Record.{Record, OpType}
use nesso.Task.{max_retries}
use nesso.Wal.{AppendIo, Wal, append}
use nesso.Disk.{Disk}
use nesso.Io.{ok}
use nesso.Engine.{Engine, EngineState, Loc, with_inner, log_state, push, push_indexed}
use nesso.Engine.Failures.{failure_record}
use nesso.Engine.Tasks.{IsValid}
use nesso.Engine.Tasks.Operations.{notify-inner}
use nesso.Engine.Recovery.Log.{
  fate, fate_op, is_live, latest, last_created, last_created-snoc, created_at, creates,
}
use nesso.Engine.Recovery.Replay.{Agrees, Replays}
use nesso.Engine.Logged.Agreement.{nack_step, Step-IsValid}
use nesso.Engine.Logged.Payload.{Shrinks}
use nesso.Engine.Logged.Keeping.{failed-Shrinks, leased-Shrinks, acked-Shrinks}
use nesso.Engine.Logged.Steps.{created_record}
use nesso.Engine.Logged.Run.{Step, Run}

abbrev pub Placed : List (ℕ × ℕ × Record) → EngineState → Type 0
Placed log s =
    (id : ℕ) (loc : Loc) → lookup id s.data_index ≡ some loc → last_created id log ≡ some loc

Shrinks-Placed :
    (log : List (ℕ × ℕ × Record)) (x : ℕ × ℕ × Record) (loc : Loc) (r : Record) (s s' : EngineState)
    → x ≡ (loc.0, loc.1, r)
    → creates r.op_type ≡ false
    → Shrinks s s'
    → Placed log s
    → Placed (log ++ x ∷ []) s'
Shrinks-Placed log x loc r s s' entry other h k id at placed =
    let here : created_at id x ≡ none = rw entry (ground (arith, other)) in
    last_created-snoc id log x ∙ rw here (k id at (h.places id at placed))

push-Placed :
    (log : List (ℕ × ℕ × Record)) (e : Engine) (s : EngineState) (payload : Payload) (priority : ℕ)
    (loc : Loc)
    → e.inner.data_index ≡ s.data_index
    → Placed log s
    → Placed
        (log ++ (loc.0, loc.1, created_record s.next_id priority payload) ∷ [])
        (push_indexed e s.next_id payload priority loc).inner
unfolding push_indexed
push-Placed log e s payload priority loc index k id at placed =
    let x : ℕ × ℕ × Record = (loc.0, loc.1, created_record s.next_id priority payload) in
    let found = lookup-insert s.next_id id loc e.inner.data_index in
    last_created-snoc id log x ∙ elim (Bool-cases (s.next_id == id)) [
      | inl same ↦ rw same (ground (arith, same, found, placed))
      | inr other ↦
          let before : lookup id e.inner.data_index ≡ some at =
            ground (arith, other, found, placed) in
          rw other (k id at (rw index at before))
    ]

failure_record-creates :
    (id priority n : ℕ) (op : OpType)
    → creates op ≡ false
    → creates (failure_record id priority n op).op_type ≡ false
failure_record-creates id priority n op h = elim (Bool-cases (leb max_retries n)) [
  | inl over ↦ rw over refl
  | inr again ↦ rw again h
]

module _ (crc32 : List ℕ → ℕ) (since : ℕ) where
  pushed-Placed :
      (log : List (ℕ × ℕ × Record)) (e : Engine) (payload : Payload) (priority : ℕ) (io : AppendIo)
      (loc : Loc) (wal : Wal) (disk : Disk)
      → append crc32 e.inner.wal e.disk io (created_record e.inner.next_id priority payload)
        ≡ (ok loc, wal, disk)
      → Placed log e.inner
      → Placed
          (log ++ (loc.0, loc.1, created_record e.inner.next_id priority payload) ∷ [])
          (push crc32 e payload priority io).1.inner
  unfolding push
  pushed-Placed log e payload priority io loc wal disk logged k =
      rw (push, logged, notify-inner)
        (push-Placed log
          (log_state (with_inner e (record (e.inner) { next_id = add_u64 e.inner.next_id 1 })) wal
            disk)
          e.inner payload priority loc refl k)

  Step-Placed :
      (log : List (ℕ × ℕ × Record)) (e : Engine) (x : ℕ × ℕ × Record) (e' : Engine)
      → Step crc32 since e x e'
      → IsValid e.inner
      → Placed log e.inner
      → Placed (log ++ x ∷ []) e'.inner
  Step-Placed log e x e' (Step.pushes _ payload priority io _ _ room p w done) v k = rw w.entry (
      subst
        (λ (e'' : Engine).
          Placed (log ++ (w.loc.0, w.loc.1, created_record e.inner.next_id priority payload) ∷ [])
            e''.inner)
        done (pushed-Placed log e payload priority io w.loc e'.inner.wal e'.disk w.logged k))
  Step-Placed log e x e' (Step.pops _ c ttl now io _ _ t q answer hc pos room popped w served) v k =
      Shrinks-Placed log x w.loc _ e.inner e'.inner w.entry refl
        (leased-Shrinks crc32 since e c ttl now io t q w.loc e'.inner.wal e'.disk answer e' popped
          w.logged served)
        k
  Step-Placed log e x e' (Step.acks _ id io lease _ _ held w done) v k =
      Shrinks-Placed log x w.loc _ e.inner e'.inner w.entry refl
        (subst (λ (e'' : Engine). Shrinks e.inner e''.inner) done
          (acked-Shrinks crc32 since e id lease io w.loc e'.inner.wal e'.disk held w.logged))
        k
  Step-Placed log e x e' (Step.nacks _ id io lease _ _ room held w done) v k =
      Shrinks-Placed log x w.loc _ e.inner e'.inner w.entry
        (failure_record-creates id lease.priority (lease.retries + 1) OpType.nacked refl)
        (subst (λ (s : EngineState). Shrinks e.inner s)
          (sym (nack_step crc32 since e id lease io held) ∙ ap (λ (e'' : Engine). e''.inner) done)
          (failed-Shrinks crc32 since e id lease OpType.nacked io w.loc e'.inner.wal e'.disk v held
            w.logged))
        k
  Step-Placed log e x e' (Step.expires _ id io lease _ _ room held w done) v k =
      Shrinks-Placed log x w.loc _ e.inner e'.inner w.entry
        (failure_record-creates id lease.priority (lease.retries + 1) OpType.expired refl)
        (subst (λ (e'' : Engine). Shrinks e.inner e''.inner) done
          (failed-Shrinks crc32 since e id lease OpType.expired io w.loc e'.inner.wal e'.disk v held
            w.logged))
        k

  pub Run-Placed :
      (e e' : Engine) (log xs : List (ℕ × ℕ × Record))
      → Run crc32 since e xs e'
      → IsValid e.inner
      → Placed log e.inner
      → IsValid e'.inner × Placed (log ++ xs) e'.inner
  Run-Placed e _ log _ (Run.start _) v k = (v, rw (append-nil log) k)
  Run-Placed e e' log _ (Run.next _ m _ xs x before step) v k =
      let (vm, km) = Run-Placed e m log xs before v k in
      (
        Step-IsValid crc32 since m x e' step vm,
        subst (λ (l : List (ℕ × ℕ × Record)). Placed l e'.inner) (append_assoc log xs (x ∷ []))
            (Step-Placed (log ++ xs) m x e' step vm km),
      )

-- The clock does not decide whether a task is over.
fate_op-is_live :
    (op : OpType) (since now : ℕ) (r : Record)
    → is_live (fate_op op now r) ≡ is_live (fate_op op since r)
fate_op-is_live OpType.created since now r = refl
fate_op-is_live OpType.nacked since now r = refl
fate_op-is_live OpType.expired since now r = refl
fate_op-is_live OpType.leased since now r = ground arith
fate_op-is_live OpType.acked since now r = refl
fate_op-is_live OpType.dead_lettered since now r = refl

-- Recovery finds each payload where the engine had it.
pub Replays-places :
    (since now : ℕ) (log : List (ℕ × ℕ × Record)) (s s' : EngineState)
    → Agrees since log s
    → Placed log s
    → Replays now log s'
    → (id : ℕ) → lookup id s'.data_index ≡ lookup id s.data_index
Replays-places since now log s s' a k replays id = elim (Option-cases (lookup id (latest log))) [
  | inl absent ↦
      let gone : contains id s.data_index ≡ false = rw absent at (a.placed id) in
      (rw absent at (replays.located id)) ∙ ground (arith, gone)
  | inr ((loc, r), found) ↦
      let same = fate_op-is_live r.op_type since now r in
      let live : contains id s.data_index ≡ is_live (fate since r) = rw found at (a.placed id) in
      let there = rw found at (replays.located id) in
      elim (Option-cases (lookup id s.data_index)) [
        | inl free ↦ there ∙ ground (arith, live, same, free)
        | inr (at, held) ↦
            let created = k id at held in there ∙ ground (arith, live, same, held, created)
      ]
]
