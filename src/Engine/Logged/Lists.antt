-- ===== src/Engine/Logged/Lists.antt =====
-- The ready tasks under a record more: the record takes its task out of the order, and puts it
-- back behind the others if it says that the task is ready.
use nesso.Base.{
  ℕ, ◌≤◌, ◌<◌, ◌≡◌, ◌≢◌, refl, ap, sym, ◌∙◌, List, [], ◌∷◌, ◌++◌, All, All-weaken, ltb, ◌==◌,
  if◌then◌else◌, arith, Bool-cases, inl, inr, true, false,
}
use nesso.Base.Maps.{remove}
use nesso.Engine.Recovery.Log.{Latest, Fate, fate, enlist, ready_in, arrive}
use nesso.Engine.Tasks.Lists.{All-insert_task}
use nesso.Queue.Order.{insert_task}
use nesso.Record.{Record}
use nesso.Task.{TaskRef}

unfoldable pub without : ℕ → List TaskRef → List TaskRef
without id [] = []
without id (t ∷ ts) = if t.id == id then without id ts else t ∷ without id ts

pub without_absent : (id : ℕ) (ts : List TaskRef) → All (λ t. t.id ≢ id) ts → without id ts ≡ ts
unfolding without
without_absent id [] h = refl
without_absent id (t ∷ ts) h = ground (arith, without_absent id ts h.1)

without-All {κ} :
    (P : TaskRef → Type κ) (id : ℕ) (ts : List TaskRef) → All P ts → All P (without id ts)
unfolding without
without-All P id [] h = tt
without-All P id (t ∷ ts) h = elim (Bool-cases (t.id == id)) [
  | inl same ↦ rw same (without-All P id ts h.1)
  | inr other ↦ rw other (h.0, without-All P id ts h.1)
]

without-enlist_ne :
    (f : Fate) (id j : ℕ) (r : Record) (ts : List TaskRef)
    → (j == id) ≡ false
    → without id (enlist j r f ts) ≡ enlist j r f (without id ts)
unfolding without
without-enlist_ne (Fate.ready n) id j r ts ne = rw ne
without-enlist_ne (Fate.held lease) id j r ts ne = refl
without-enlist_ne Fate.over id j r ts ne = refl

without-enlist_self :
    (f : Fate) (id j : ℕ) (r : Record) (ts : List TaskRef)
    → (j == id) ≡ true
    → without id (enlist j r f ts) ≡ without id ts
unfolding without
without-enlist_self (Fate.ready n) id j r ts e = rw e
without-enlist_self (Fate.held lease) id j r ts e = refl
without-enlist_self Fate.over id j r ts e = refl

pub ready_in-remove :
    (now id : ℕ) (l : Latest) → ready_in now (remove id l) ≡ without id (ready_in now l)
unfolding ready_in remove
ready_in-remove now id [] = unfold without in refl
ready_in-remove now id ((j, (loc, r)) ∷ l) = elim (Bool-cases (j == id)) [
  | inl same ↦ rw same (
      ready_in-remove now id l
      ∙ sym (without-enlist_self (fate now r) id j r (ready_in now l) same))
  | inr other ↦ rw other (
      ap (enlist j r (fate now r)) (ready_in-remove now id l)
      ∙ sym (without-enlist_ne (fate now r) id j r (ready_in now l) other))
]

enlist-append :
    (f : Fate) (id : ℕ) (r : Record) (ts us : List TaskRef)
    → enlist id r f (ts ++ us) ≡ enlist id r f ts ++ us
enlist-append (Fate.ready n) id r ts us = refl
enlist-append (Fate.held lease) id r ts us = refl
enlist-append Fate.over id r ts us = refl

pub ready_in-append :
    (now : ℕ) (l k : Latest) → ready_in now (l ++ k) ≡ ready_in now l ++ ready_in now k
unfolding ready_in
ready_in-append now [] k = refl
ready_in-append now ((j, (loc, r)) ∷ l) k =
    ap (enlist j r (fate now r)) (ready_in-append now l k)
    ∙ enlist-append (fate now r) j r (ready_in now l) (ready_in now k)

pub arrive-append :
    (served ts us : List TaskRef) → arrive served (ts ++ us) ≡ arrive (arrive served ts) us
unfolding arrive
arrive-append served [] us = refl
arrive-append served (t ∷ ts) us = arrive-append (insert_task t served) ts us

-- In the order of service priorities fall.
abbrev IsServed : List TaskRef → Type 0
IsServed [] = Unit {0}
IsServed (t ∷ ts) = All (λ u. u.priority ≤ t.priority) ts × IsServed ts

insert_task-IsServed : (t : TaskRef) (ts : List TaskRef) → IsServed ts → IsServed (insert_task t ts)
unfolding insert_task
insert_task-IsServed t [] h = (tt, tt)
insert_task-IsServed t (x ∷ ts) h = elim (Bool-cases (ltb x.priority t.priority)) [
  | inl before ↦ rw before (
    (
      ground arith,
      All-weaken (λ (u : TaskRef). u.priority ≤ x.priority)
          (λ (u : TaskRef). u.priority ≤ t.priority) (λ u l. ground arith) ts h.0,
    ),
    h,
  )
  | inr behind ↦ rw behind (
    All-insert_task (λ (u : TaskRef). u.priority ≤ x.priority) t ts (ground arith) h.0,
    insert_task-IsServed t ts h.1,
  )
]

insert_task_front :
    (t : TaskRef) (ts : List TaskRef)
    → All (λ u. u.priority < t.priority) ts
    → insert_task t ts ≡ t ∷ ts
unfolding insert_task
insert_task_front t [] h = refl
insert_task_front t (x ∷ ts) h = ground arith

without-insert_task_self :
    (t : TaskRef) (id : ℕ) (ts : List TaskRef)
    → (t.id == id) ≡ true
    → without id (insert_task t ts) ≡ without id ts
unfolding without insert_task
without-insert_task_self t id [] e = rw e
without-insert_task_self t id (x ∷ ts) e = ground (arith, without-insert_task_self t id ts e)

without-insert_task_ne :
    (t : TaskRef) (id : ℕ) (ts : List TaskRef)
    → IsServed ts
    → (t.id == id) ≡ false
    → without id (insert_task t ts) ≡ insert_task t (without id ts)
unfolding without insert_task
without-insert_task_ne t id [] h ne = rw (without, insert_task, ne)
without-insert_task_ne t id (x ∷ ts) h ne = elim (Bool-cases (ltb x.priority t.priority)) [
  | inl before ↦
      let lower : All (λ (u : TaskRef). u.priority < t.priority) ts =
        All-weaken (λ (u : TaskRef). u.priority ≤ x.priority) _ (λ u l. ground arith) ts h.0 in
      elim (Bool-cases (x.id == id)) [
        | inl same ↦
            rw (before, without, ne, same)
              (sym (
                insert_task_front t (without id ts)
                  (without-All (λ (u : TaskRef). u.priority < t.priority) id ts lower)))
        | inr other ↦ rw (before, without, ne, other, before)
      ]
  | inr behind ↦
      let ih = without-insert_task_ne t id ts h.1 ne in
      elim (Bool-cases (x.id == id)) [
        | inl same ↦ rw (behind, without, same) ih
        | inr other ↦ rw (behind, without, other, behind) (ap (◌∷◌ x) ih)
      ]
]

pub without-arrive :
    (id : ℕ) (served ts : List TaskRef)
    → IsServed served
    → without id (arrive served ts) ≡ arrive (without id served) (without id ts)
unfolding arrive without
without-arrive id served [] h = refl
without-arrive id served (t ∷ ts) h =
    let ih = without-arrive id (insert_task t served) ts (insert_task-IsServed t served h) in
    elim (Bool-cases (t.id == id)) [
      | inl same ↦ rw same (
          ih
          ∙ ap (λ (s : List TaskRef). arrive s (without id ts))
              (without-insert_task_self t id served same))
      | inr other ↦ rw other (
          ih
          ∙ ap (λ (s : List TaskRef). arrive s (without id ts))
              (without-insert_task_ne t id served h other))
    ]
