-- ===== src/Engine/Logged/Steps.antt =====
-- Each operation does to the tasks what the record that it writes says.
use nesso.Base.{
  ℕ, ◌+◌, ◌<◌, ◌≡◌, ◌≢◌, refl, ap, sym, ◌∙◌, subst, true, none, some, List, ◌∷◌, All, All-weaken,
  IsU8, IsU32, IsU64, ◌==◌, if◌then◌else◌, arith, Option-cases, Bool-cases, inl, inr,
}
use nesso.Base.Bytes.{from_be_bytes, from-to_be_bytes, slice}
use nesso.Base.Maps.{Map, lookup, insert, remove, contains, lookup-insert, lookup-remove}
use nesso.Cache.{Payload}
use nesso.Queue.{PriorityBucketQueue}
use nesso.Queue.Invariant.{to_list, push-to_list}
use nesso.Record.{Record, OpType}
use nesso.Task.{TaskRef, LeaseInfo}
use nesso.Engine.{Engine, EngineState, Loc, push_indexed, lease_indexed, lease_payload}
use nesso.Engine.Tasks.{IsValid, IsReady, Distinct}
use nesso.Engine.Tasks.Lists.{All-ne_of_leased}
use nesso.Engine.Tasks.Operations.{next_id-unleased}
use nesso.Engine.Answers.{ack_record}
use nesso.Engine.Leases.{lease_of, lease_record}
use nesso.Engine.Recovery.Log.{Fate, fate, lease_in, is_live}
use nesso.Engine.Logged.Lists.{without, without_absent}
use nesso.Engine.Logged.Moves.{Moves, put_back}

-- No ready task has an id that was not given out yet.
ready-fresh : (s : EngineState) → IsValid s → All (λ t. t.id ≢ s.next_id) (to_list s.ready_queue)
ready-fresh s v =
    All-weaken (IsReady s.next_id s.leased s.data_index) (λ (t : TaskRef). t.id ≢ s.next_id)
      (λ t r e. omega (arith, r.0)) (to_list s.ready_queue) v.ready

pub ready-unleased :
    (s : EngineState) (id : ℕ) (lease : LeaseInfo)
    → IsValid s
    → lookup id s.leased ≡ some lease
    → All (λ t. t.id ≢ id) (to_list s.ready_queue)
ready-unleased s id lease v held = All-ne_of_leased s.leased id lease (to_list s.ready_queue) held (
    All-weaken (IsReady s.next_id s.leased s.data_index)
      (λ (t : TaskRef). lookup t.id s.leased ≡ none) (λ t r. r.3) (to_list s.ready_queue) v.ready)

abbrev pub created_record : ℕ → ℕ → Payload → Record
created_record id priority payload = record {
  id = id;
  op_type = OpType.created;
  priority = priority;
  payload = payload;
}

-- The lease that stands in a lease record is the lease.
lease_record-fate :
    (since : ℕ) (t : TaskRef) (consumer_id expire : ℕ)
    → IsU32 consumer_id
    → IsU64 expire
    → since < expire
    → fate since (lease_record t consumer_id expire) ≡ Fate.held (lease_of t consumer_id expire)
unfolding lease_payload slice
lease_record-fate since t c x hc hx pos =
    let consumer : from_be_bytes (slice 0 4 (lease_payload c x t.retries)) ≡ c =
      from-to_be_bytes 4 c (omega arith) in
    let expiry : from_be_bytes (slice 4 12 (lease_payload c x t.retries)) ≡ x =
      from-to_be_bytes 8 x (omega arith) in
    ground (arith, consumer, expiry)

pub ack-Moves :
    (since : ℕ) (s s' : EngineState) (id : ℕ) (lease : LeaseInfo)
    → IsValid s
    → lookup id s.leased ≡ some lease
    → s'.ready_queue ≡ s.ready_queue
    → s'.leased ≡ remove id s.leased
    → s'.data_index ≡ remove id s.data_index
    → s'.next_id ≡ s.next_id
    → Moves since (ack_record id lease) s s'
ack-Moves since s s' id lease v held eq el ed en = record {
  ready = rw (eq, without_absent id (to_list s.ready_queue) (ready-unleased s id lease v held));
  leased = λ j. rw el (lookup-remove id j s.leased);
  placed = λ j. rw ed (ground (arith, lookup-remove id j s.data_index));
  given = omega (arith, en, (v.leases id lease held).0);
  ids = omega (arith, en);
}

pub push-Moves :
    (since : ℕ) (e : Engine) (s : EngineState) (payload : Payload) (priority : ℕ) (loc : Loc)
    → IsValid s
    → IsU8 priority
    → e.inner.ready_queue ≡ s.ready_queue
    → e.inner.leased ≡ s.leased
    → e.inner.data_index ≡ s.data_index
    → e.inner.next_id ≡ s.next_id + 1
    → Moves since
        (created_record s.next_id priority payload)
        s
        (push_indexed e s.next_id payload priority loc).inner
unfolding push_indexed
push-Moves since e s payload priority loc v p eq el ed en =
    let t : TaskRef = record { id = s.next_id; priority = priority; retries = 0 } in
    record {
      ready =
          rw (eq, without_absent s.next_id (to_list s.ready_queue) (ready-fresh s v))
            (push-to_list s.ready_queue t v.queue p);
      leased = λ j. rw el (ground (arith, next_id-unleased s v));
      placed = λ j. rw ed (ground (arith, lookup-insert s.next_id j loc s.data_index));
      given = omega (arith, en);
      ids = omega (arith, en);
    }

-- The head of distinct tasks stands nowhere behind.
without-head : (t : TaskRef) (ts : List TaskRef) → Distinct (t ∷ ts) → without t.id (t ∷ ts) ≡ ts
unfolding without
without-head t ts d = ground (arith, without_absent t.id ts d.0)

pub same_place :
    (id j : ℕ) (m : Map Loc)
    → contains id m ≡ true
    → contains j m ≡ (if id == j then true else contains j m)
same_place id j m known = elim (Bool-cases (id == j)) [
  | inl same ↦ ground (arith, known)
  | inr other ↦ rw other
]

lease_indexed-fields :
    (e : Engine) (t : TaskRef) (lease : LeaseInfo) (loc : Loc)
    → let s' = (lease_indexed e t lease loc).1.inner in
      (s'.ready_queue ≡ e.inner.ready_queue)
      × (s'.leased ≡ insert t.id lease e.inner.leased)
      × (s'.data_index ≡ e.inner.data_index)
      × (s'.next_id ≡ e.inner.next_id)
unfolding lease_indexed
lease_indexed-fields e t lease loc = elim (Option-cases (lookup t.id e.inner.data_index)) [
  | inl missing ↦ rw missing (refl, refl, refl, refl)
  | inr (data_loc, known) ↦ rw known (refl, refl, refl, refl)
]

pub lease-Moves :
    (since : ℕ) (e : Engine) (s : EngineState) (t : TaskRef) (consumer_id expire : ℕ) (loc : Loc)
    → IsValid s
    → IsU32 consumer_id
    → IsU64 expire
    → since < expire
    → to_list s.ready_queue ≡ t ∷ to_list e.inner.ready_queue
    → e.inner.leased ≡ s.leased
    → e.inner.data_index ≡ s.data_index
    → e.inner.next_id ≡ s.next_id
    → Moves since
        (lease_record t consumer_id expire)
        s
        (lease_indexed e t (lease_of t consumer_id expire) loc).1.inner
lease-Moves since e s t c x loc v hc hx pos order el ed en =
    let lease = lease_of t c x in
    let r = lease_record t c x in
    let held = lease_record-fate since t c x hc hx pos in
    let (queue, leased, data_index, next_id) = lease_indexed-fields e t lease loc in
    let known : contains t.id s.data_index ≡ true = (rw order at v.ready).0.4 in
    record {
      ready =
          ap (λ (q : PriorityBucketQueue). to_list q) queue
          ∙ sym (
              ap (λ (f : Fate). put_back t.id r f (without t.id (to_list s.ready_queue))) held
              ∙ ap (without t.id) order
              ∙ without-head t (to_list e.inner.ready_queue) (subst Distinct order v.distinct));
      leased = λ j.
          ap (lookup j) leased
          ∙ lookup-insert t.id j lease e.inner.leased
          ∙ ap (λ (m : Map LeaseInfo). if t.id == j then some lease else lookup j m) el
          ∙ ap (λ (f : Fate). if t.id == j then lease_in f else lookup j s.leased) (sym held);
      placed = λ j.
          ap (contains j) (data_index ∙ ed)
          ∙ same_place t.id j s.data_index known
          ∙ ap (λ (f : Fate). if t.id == j then is_live f else contains j s.data_index) (sym held);
      given = omega (arith, next_id, en, (rw order at v.ready).0.0);
      ids = omega (arith, next_id, en);
    }
