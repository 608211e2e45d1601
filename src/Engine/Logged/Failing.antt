-- ===== src/Engine/Logged/Failing.antt =====
-- A failed task does what the record of the failure says.
use nesso.Base.{
  ℕ, ◌≡◌, refl, ap, sym, ◌∙◌, Bool, true, false, some, [], ◌∷◌, IsU8, get_or, leb, ◌==◌,
  if◌then◌else◌, arith, Bool-cases, inl, inr,
}
use nesso.Base.Maps.{lookup, contains, lookup-remove}
use nesso.Queue.Invariant.{to_list, push-to_list}
use nesso.Queue.Order.{insert_task}
use nesso.Record.{Record, OpType}
use nesso.Task.{TaskRef, LeaseInfo, max_retries}
use nesso.Engine.{Engine, EngineState, Loc, failure_indexed}
use nesso.Engine.Tasks.{IsValid}
use nesso.Engine.Failures.{failure_record}
use nesso.Engine.Recovery.Log.{Fate, fate_op, lease_in, is_live}
use nesso.Engine.Logged.Lists.{without, without_absent}
use nesso.Engine.Logged.Steps.{ready-unleased, same_place}
use nesso.Engine.Logged.Moves.{Moves, put_back}

abbrev pub is_failure : OpType → Bool
is_failure OpType.nacked = true
is_failure OpType.expired = true
is_failure _ = false

failure-fate :
    (since : ℕ) (op : OpType) (r : Record)
    → is_failure op ≡ true
    → fate_op op since r ≡ Fate.ready (get_or r.payload 0 0)
failure-fate since OpType.nacked r h = refl
failure-fate since OpType.expired r h = refl
failure-fate since OpType.created r h = absurd (ground (arith, h))
failure-fate since OpType.leased r h = absurd (ground (arith, h))
failure-fate since OpType.acked r h = absurd (ground (arith, h))
failure-fate since OpType.dead_lettered r h = absurd (ground (arith, h))

-- The failure of a lease, nacked or expired.
pub failure-Moves :
    (since : ℕ) (e : Engine) (s : EngineState) (id n : ℕ) (lease : LeaseInfo) (op : OpType)
    (loc : Loc)
    → IsValid s
    → lookup id s.leased ≡ some lease
    → is_failure op ≡ true
    → IsU8 lease.priority
    → e.inner.ready_queue ≡ s.ready_queue
    → e.inner.leased ≡ s.leased
    → e.inner.data_index ≡ s.data_index
    → e.inner.next_id ≡ s.next_id
    → Moves since
        (failure_record id lease.priority n op)
        s
        (failure_indexed e id lease.priority n loc).1.inner
unfolding failure_indexed
failure-Moves since e s id n lease op loc v held failed p eq el ed en =
    let unready = without_absent id (to_list s.ready_queue) (ready-unleased s id lease v held) in
    let known : contains id s.data_index ≡ true = (v.leases id lease held).3 in
    let r : Record = record {
      id = id;
      op_type = op;
      priority = lease.priority;
      payload = n ∷ [];
    } in
    let again = failure-fate since op r failed in
    let t : TaskRef = record { id = id; priority = lease.priority; retries = n } in
    elim (Bool-cases (leb max_retries n)) [
      | inl over ↦ rw over (record {
        ready = rw eq (sym unready);
        leased = λ j. rw el (lookup-remove id j s.leased);
        placed = λ j. rw ed (ground (arith, lookup-remove id j s.data_index));
        given = omega (arith, en, (v.leases id lease held).0);
        ids = omega (arith, en);
      })
      | inr alive ↦ rw alive (record {
        ready = rw eq (
            push-to_list s.ready_queue t v.queue p
            ∙ sym (
                ap (λ (f : Fate). put_back id r f (without id (to_list s.ready_queue))) again
                ∙ ap (insert_task t) unready));
        leased = λ j.
            rw el (lookup-remove id j s.leased)
            ∙ ap (λ (f : Fate). if id == j then lease_in f else lookup j s.leased) (sym again);
        placed = λ j.
            rw ed (same_place id j s.data_index known)
            ∙ ap (λ (f : Fate). if id == j then is_live f else contains j s.data_index) (sym again);
        given = omega (arith, en, (v.leases id lease held).0);
        ids = omega (arith, en);
      })
    ]
