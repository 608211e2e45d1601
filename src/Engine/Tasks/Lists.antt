-- ===== src/Engine/Tasks/Lists.antt =====
-- The ready list under an insertion and under a change of the maps.
use nesso.Base.{
  All-weaken, ℕ, ◌≡◌, ◌≢◌, refl, ap, false, ◌||◌, List, [], ◌∷◌, All, ltb, ◌==◌, arith, sym,
  Bool-cases, inl, inr, none, some,
}
use nesso.Base.Maps.{Map, lookup}
use nesso.Queue.Order.{insert_task}
use nesso.Task.{TaskRef}
use nesso.Engine.Tasks.{Distinct, holds}

pub All-insert_task {κ} :
    (P : TaskRef → Type κ) (t : TaskRef) (ts : List TaskRef)
    → P t
    → All P ts
    → All P (insert_task t ts)
unfolding insert_task
All-insert_task P t [] p h = (p, tt)
All-insert_task P t (x ∷ xs) p h = elim (Bool-cases (ltb x.priority t.priority)) [
  | inl before ↦ rw before (p, h)
  | inr behind ↦ rw behind (h.0, All-insert_task P t xs p h.1)
]

pub Distinct-insert_task :
    (t : TaskRef) (ts : List TaskRef)
    → All (λ u. u.id ≢ t.id) ts
    → Distinct ts
    → Distinct (insert_task t ts)
unfolding insert_task
Distinct-insert_task t [] f d = (tt, tt)
Distinct-insert_task t (x ∷ xs) f d = elim (Bool-cases (ltb x.priority t.priority)) [
  | inl before ↦ rw before (f, d)
  | inr behind ↦ rw behind (
    All-insert_task (λ (u : TaskRef). u.id ≢ x.id) t xs (λ e. f.0 (sym e)) d.0,
    Distinct-insert_task t xs f.1 d.1,
  )
]

pub holds-insert_task :
    (id : ℕ) (t : TaskRef) (ts : List TaskRef)
    → holds id (insert_task t ts) ≡ (t.id == id || holds id ts)
unfolding insert_task
holds-insert_task id t [] = refl
holds-insert_task id t (x ∷ xs) = ground (arith, holds-insert_task id t xs)

-- A task that is not leased is not the one that is.
pub All-ne_of_leased :
    {V : Type 0} (leased : Map V) (id : ℕ) (v : V) (ts : List TaskRef)
    → lookup id leased ≡ some v
    → All (λ t. lookup t.id leased ≡ none) ts
    → All (λ t. t.id ≢ id) ts
All-ne_of_leased leased id v ts e =
    All-weaken (λ (t : TaskRef). lookup t.id leased ≡ none) _
      (λ t n same. cc (ap (λ (i : ℕ). lookup i leased) same)) ts

pub holds_fresh : (id : ℕ) (ts : List TaskRef) → All (λ t. t.id ≢ id) ts → holds id ts ≡ false
holds_fresh id [] h = refl
holds_fresh id (t ∷ ts) h = ground (arith, holds_fresh id ts h.1)
