-- ===== src/Engine/Logged/Moves.antt =====
-- What a record more does to the tasks that the log tells of.
use nesso.Base.{
  ℕ, ◌≤◌, ◌<◌, ◌≡◌, refl, ap, sym, ◌∙◌, List, [], ◌∷◌, ◌++◌, ◌==◌, if◌then◌else◌, arith,
}
use nesso.Base.Maps.{lookup, contains, remove}
use nesso.Queue.Invariant.{to_list}
use nesso.Queue.Order.{insert_task}
use nesso.Record.{Record}
use nesso.Task.{TaskRef}
use nesso.Engine.{EngineState}
use nesso.Engine.Recovery.Log.{
  Latest, Fate, fate, lease_in, is_live, ready_in, arrive, enlist, latest, move_last,
  latest_from-append,
}
use nesso.Engine.Recovery.Indexing.{lookup-move_last}
use nesso.Engine.Recovery.Replay.{Agrees}
use nesso.Engine.Logged.Lists.{
  without, ready_in-remove, ready_in-append, arrive-append, without-arrive,
}

-- A task that is ready goes behind the others, a task that is not goes nowhere.
abbrev pub put_back : ℕ → Record → Fate → List TaskRef → List TaskRef
put_back id r (Fate.ready n) ts =
    insert_task (record { id = id; priority = r.priority; retries = n }) ts
put_back id r (Fate.held lease) ts = ts
put_back id r Fate.over ts = ts

-- From `s` to `s'` the engine did what the record says of its task, and nothing else.
pub record Moves (since : ℕ) (r : Record) (s s' : EngineState) : Type 0 where
  pub ready :
      to_list s'.ready_queue ≡ put_back r.id r (fate since r) (without r.id (to_list s.ready_queue))
  pub leased :
      (id : ℕ)
      → lookup id s'.leased ≡ (if r.id == id then lease_in (fate since r) else lookup id s.leased)
  pub placed :
      (id : ℕ)
      → contains id s'.data_index
        ≡ (if r.id == id then is_live (fate since r) else contains id s.data_index)
  pub given : r.id < s'.next_id
  pub ids : s.next_id ≤ s'.next_id

arrive-put_back :
    (f : Fate) (id : ℕ) (r : Record) (ts : List TaskRef)
    → arrive ts (enlist id r f []) ≡ put_back id r f ts
unfolding arrive
arrive-put_back (Fate.ready n) id r ts = refl
arrive-put_back (Fate.held lease) id r ts = refl
arrive-put_back Fate.over id r ts = refl

arrive-move_last :
    (since : ℕ) (l : Latest) (seg off : ℕ) (r : Record)
    → arrive [] (ready_in since (move_last l (seg, off, r)))
      ≡ put_back r.id r (fate since r) (without r.id (arrive [] (ready_in since l)))
unfolding move_last ready_in without
arrive-move_last since l seg off r =
    ap (arrive []) (ready_in-append since (remove r.id l) ((r.id, ((seg, off), r)) ∷ []))
    ∙ arrive-append [] (ready_in since (remove r.id l))
        (ready_in since ((r.id, ((seg, off), r)) ∷ []))
    ∙ ap
        (λ (us : List TaskRef).
          arrive (arrive [] us) (ready_in since ((r.id, ((seg, off), r)) ∷ [])))
        (ready_in-remove since r.id l)
    ∙ arrive-put_back (fate since r) r.id r (arrive [] (without r.id (ready_in since l)))
    ∙ ap (put_back r.id r (fate since r)) (sym (without-arrive r.id [] (ready_in since l) tt))

-- An engine that agrees with its log and does what a new record says agrees with the longer log.
pub Moves-Agrees :
    (since : ℕ) (log : List (ℕ × ℕ × Record)) (seg off : ℕ) (r : Record) (s s' : EngineState)
    → Agrees since log s
    → Moves since r s s'
    → Agrees since (log ++ (seg, off, r) ∷ []) s'
Moves-Agrees since log seg off r s s' a m =
    let longer = latest_from-append [] log (seg, off, r) in
    record {
      ready =
          m.ready
          ∙ ap (λ (ts : List TaskRef). put_back r.id r (fate since r) (without r.id ts)) a.ready
          ∙ sym (arrive-move_last since (latest log) seg off r)
          ∙ ap (λ (l : Latest). arrive [] (ready_in since l)) (sym longer);
      leased = λ id.
          rw longer
            (ground (arith, m.leased id, a.leased id, lookup-move_last (latest log) seg off r id));
      placed = λ id.
          rw longer
            (ground (arith, m.placed id, a.placed id, lookup-move_last (latest log) seg off r id));
    }
