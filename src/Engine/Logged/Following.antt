-- ===== src/Engine/Logged/Following.antt =====
-- storage/engine.rs: an engine that runs follows its log.
use nesso.Base.{
  All, All-append, All-weaken, ℕ, ◌+◌, ◌<◌, ◌≡◌, refl, sym, subst, some, List, [], ◌∷◌, ◌++◌,
  append_assoc, append-nil, arith, true,
}
use nesso.Queue
use nesso.Queue.{PriorityBucketQueue}
use nesso.Record.{Record, OpType}
use nesso.Task.{TaskRef, max_retries}
use nesso.Engine.{Engine, EngineState, lease_payload}
use nesso.Engine.Tasks.{IsValid, IsReady}
use nesso.Engine.Failures.{failure_record}
use nesso.Engine.Recovery.Ids.{IdsBelow}
use nesso.Engine.Recovery.Replay.{Agrees}
use nesso.Engine.Recovery.Sound.{IsSound}
use nesso.Engine.Logged.Moves.{Moves-Agrees}
use nesso.Engine.Logged.Failing.{is_failure}
use nesso.Engine.Logged.Run.{Step, Run}
use nesso.Engine.Logged.Agreement.{popped_order, Step-Moves, Step-IsValid}

module _ (crc32 : List ℕ → ℕ) (since : ℕ) where
  -- The head of the order is a task with retries left.
  popped-retries :
      (e : Engine) (t : TaskRef) (q : PriorityBucketQueue)
      → IsValid e.inner
      → Queue.pop e.inner.ready_queue ≡ some (some t, q)
      → t.retries < max_retries
  popped-retries e t q v popped =
      (subst (All (IsReady e.inner.next_id e.inner.leased e.inner.data_index))
        (popped_order crc32 since e t q v popped) v.ready).0.1

  failure_record-IsSound :
      (seg off id priority n : ℕ) (op : OpType)
      → is_failure op ≡ true
      → IsSound (seg, off, failure_record id priority n op)
  failure_record-IsSound seg off id priority n OpType.nacked h = ground arith
  failure_record-IsSound seg off id priority n OpType.expired h = ground arith
  failure_record-IsSound seg off id priority n OpType.created h = absurd (ground (arith, h))
  failure_record-IsSound seg off id priority n OpType.leased h = absurd (ground (arith, h))
  failure_record-IsSound seg off id priority n OpType.acked h = absurd (ground (arith, h))
  failure_record-IsSound seg off id priority n OpType.dead_lettered h = absurd (ground (arith, h))

  -- An engine in order writes only records that recovery takes for tasks in order.
  Step-IsSound :
      (e : Engine) (x : ℕ × ℕ × Record) (e' : Engine)
      → Step crc32 since e x e'
      → IsValid e.inner
      → IsSound x
  unfolding lease_payload
  Step-IsSound e x e' (Step.pushes _ payload priority io _ _ room p w done) v =
      subst IsSound (sym w.entry) (omega arith)
  Step-IsSound e x e' (Step.pops _ c ttl now io _ _ t q answer hc pos room popped w served) v =
      subst IsSound (sym w.entry) (popped-retries e t q v popped)
  Step-IsSound e x e' (Step.acks _ id io lease _ _ held w done) v =
      subst IsSound (sym w.entry) (omega arith)
  Step-IsSound e x e' (Step.nacks _ id io lease _ _ room held w done) v =
      subst IsSound (sym w.entry) (
        failure_record-IsSound w.loc.0 w.loc.1 id lease.priority (lease.retries + 1) OpType.nacked
          refl)
  Step-IsSound e x e' (Step.expires _ id io lease _ _ room held w done) v =
      subst IsSound (sym w.entry) (
        failure_record-IsSound w.loc.0 w.loc.1 id lease.priority (lease.retries + 1) OpType.expired
          refl)

  -- An engine in order, with the tasks that a log tells of, which engines wrote under ids given
  -- out.
  pub record Follows (log : List (ℕ × ℕ × Record)) (s : EngineState) : Type 0 where
    pub valid : IsValid s
    pub agrees : Agrees since log s
    pub ids : IdsBelow s.next_id log
    pub sound : All IsSound log

  -- Whatever operations write their records one behind the other, an engine that follows its log
  -- follows the log with those records: tasks stay in order, and those ready, in their order and
  -- with their retries, those leased and those with a place are what the last record of each task
  -- says.
  pub Run-Follows :
      (e e' : Engine) (log xs : List (ℕ × ℕ × Record))
      → Run crc32 since e xs e'
      → Follows log e.inner
      → Follows (log ++ xs) e'.inner
  Run-Follows e _ log _ (Run.start _) h = rw (append-nil log) h
  Run-Follows e e' log _ (Run.next _ m _ xs x before step) h =
      let f = Run-Follows e m log xs before h in
      let moves = Step-Moves crc32 since m x e' step f.valid in
      subst (λ (l : List (ℕ × ℕ × Record)). Follows l e'.inner) (append_assoc log xs (x ∷ []))
        (record {
          valid = Step-IsValid crc32 since m x e' step f.valid;
          agrees = Moves-Agrees since (log ++ xs) x.0 x.1 x.2 m.inner e'.inner f.agrees moves;
          ids =
              All-append (λ (y : ℕ × ℕ × Record). y.2.id < e'.inner.next_id) (log ++ xs) (x ∷ [])
                (All-weaken (λ (y : ℕ × ℕ × Record). y.2.id < m.inner.next_id) _
                  (λ y below. omega (arith, moves.ids)) (log ++ xs) f.ids)
                (moves.given, tt);
          sound =
              All-append IsSound (log ++ xs) (x ∷ []) f.sound
                (Step-IsSound m x e' step f.valid, tt);
        })
