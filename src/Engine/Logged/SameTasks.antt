-- ===== src/Engine/Logged/SameTasks.antt =====
-- storage/engine.rs: two engines that agree with one log have the same tasks.
use nesso.Base.{
  ℕ, ◌≤◌, ◌<◌, ◌≡◌, refl, ap, sym, ◌∙◌, some, List, [], ◌∷◌, All, All-weaken, arith, Option-cases,
  inl, inr,
}
use nesso.Base.Maps.{Map, lookup}
use nesso.Queue.Invariant.{to_list}
use nesso.Record.{Record, OpType}
use nesso.Task.{LeaseInfo}
use nesso.Engine.{EngineState, Loc}
use nesso.Engine.Recovery.Log.{
  Latest, Fate, fate, fate_op, lease_in, ready_in, arrive, enlist, latest, latest_from-DistinctKeys,
  logged_lease, lookup-entries,
}
use nesso.Engine.Recovery.Replay.{Agrees}

-- No lease of the engine has run out.
abbrev pub NoneExpired : (now : ℕ) → Map LeaseInfo → Type 0
NoneExpired now leased =
    (id : ℕ) (lease : LeaseInfo) → lookup id leased ≡ some lease → now < lease.expire_timestamp

-- A record says the same now and at the beginning, unless its lease has run out.
fate_op-still :
    (op : OpType) (since now : ℕ) (r : Record)
    → since ≤ now
    → ((lease : LeaseInfo) → fate_op op since r ≡ Fate.held lease → now < lease.expire_timestamp)
    → fate_op op now r ≡ fate_op op since r
fate_op-still OpType.created since now r later h = refl
fate_op-still OpType.nacked since now r later h = refl
fate_op-still OpType.expired since now r later h = refl
fate_op-still OpType.leased since now r later h = ground (arith, h (logged_lease r))
fate_op-still OpType.acked since now r later h = refl
fate_op-still OpType.dead_lettered since now r later h = refl

ready_in-still :
    (since now : ℕ) (l : Latest)
    → All (λ e. fate now e.1.1 ≡ fate since e.1.1) l
    → ready_in now l ≡ ready_in since l
unfolding ready_in
ready_in-still since now [] h = refl
ready_in-still since now ((id, (loc, r)) ∷ l) h =
    ap (λ (f : Fate). enlist id r f (ready_in now l)) h.0
    ∙ ap (enlist id r (fate since r)) (ready_in-still since now l h.1)

-- The two engines have the same tasks: ready in the same order with the same retries, leased with
-- the same leases, and with their payloads at the same places of the log.
pub record SameTasks (s s' : EngineState) : Type 0 where
  pub ready : to_list s'.ready_queue ≡ to_list s.ready_queue
  pub leased : (id : ℕ) → lookup id s'.leased ≡ lookup id s.leased
  pub placed : (id : ℕ) → lookup id s'.data_index ≡ lookup id s.data_index

-- Two engines that agree with one log, one at its beginning and one now, and have the same places,
-- if no lease has run out.
pub Agrees-SameTasks :
    (since now : ℕ) (log : List (ℕ × ℕ × Record)) (s s' : EngineState)
    → since ≤ now
    → Agrees since log s
    → Agrees now log s'
    → NoneExpired now s.leased
    → ((id : ℕ) → lookup id s'.data_index ≡ lookup id s.data_index)
    → SameTasks s s'
Agrees-SameTasks since now log s s' later a a' h places =
    let l = latest log in
    let still : (id : ℕ) (loc : Loc) (r : Record)
        → lookup id l ≡ some (loc, r)
        → fate now r ≡ fate since r =
      λ id loc r found.
        fate_op-still r.op_type since now r later
          (λ lease held. h id lease (a.leased id ∙ rw found (ap lease_in held))) in
    let entries = lookup-entries l (latest_from-DistinctKeys [] log tt) in
    record {
      ready =
          a'.ready
          ∙ ap (arrive []) (
              ready_in-still since now l (
                All-weaken (λ (e : ℕ × (Loc × Record)). lookup e.0 l ≡ some e.1) _
                  (λ e found. still e.0 e.1.0 e.1.1 found) l entries))
          ∙ sym a.ready;
      leased = λ id. elim (Option-cases (lookup id l)) [
        | inl absent ↦ (rw absent at (a'.leased id)) ∙ sym (rw absent at (a.leased id))
        | inr ((loc, r), found) ↦
            (rw found at (a'.leased id))
            ∙ ap lease_in (still id loc r found)
            ∙ sym (rw found at (a.leased id))
      ];
      placed = places;
    }
