-- ===== src/Engine/Recovery/Indexing.antt =====
-- storage/engine.rs, `recover`: what the first pass leaves in the indexes.
use nesso.Base.{
  ℕ, ◌≡◌, refl, ap, sym, ◌∙◌, true, Option, none, some, List, [], ◌∷◌, ◌++◌, All, All-weaken, ◌==◌,
  ◌&&◌, if◌then◌else◌, arith, map, Bool-cases, inl, inr,
}
use mathlib.Core.Option
use nesso.Base.Keys.{DistinctKeys, insert-All, insert-DistinctKeys}
use nesso.Base.Maps.{Map, insert, remove, lookup, contains, lookup-insert, lookup-remove}
use nesso.Record.{Record, OpType}
use nesso.Engine.{EngineState, Loc}
use nesso.Engine.Recovery.{is_created, index_record, index_records, by_location}
use nesso.Engine.Recovery.Order.{Before, by_location-insert}
use nesso.Engine.Recovery.Log.{
  Latest, loc_of, move_last, latest_from, IsAscending, or_else, creates, created_at, last_created,
}

abbrev pub key : ℕ × (Loc × Record) → ℕ × Loc
key (id, (loc, r)) = (id, loc)

map-append_key : (l k : Latest) → map key (l ++ k) ≡ map key l ++ map key k
map-append_key [] k = refl
map-append_key (x ∷ l) k = ap (◌∷◌ (key x)) (map-append_key l k)

map-remove : (id : ℕ) (l : Latest) → map key (remove id l) ≡ remove id (map key l)
unfolding remove
map-remove id [] = refl
map-remove id ((j, (loc, r)) ∷ l) = elim (Bool-cases (j == id)) [
  | inl same ↦ rw same (map-remove id l)
  | inr other ↦ rw other (ap (◌∷◌ (j, loc)) (map-remove id l))
]

-- The index holds the last places, and they stand before the records still to come.
pub record Indexed (index : Map Loc) (l : Latest) (rest : List (ℕ × ℕ × Record)) : Type 0 where
  pub order : by_location index ≡ map key l
  pub distinct : DistinctKeys index
  pub behind : All (λ e. All (λ y. Before e.1 (loc_of y)) rest) index

index_record-Indexed :
    (s : EngineState) (x : ℕ × ℕ × Record) (l : Latest) (rest : List (ℕ × ℕ × Record))
    → IsAscending (x ∷ rest)
    → Indexed s.index l (x ∷ rest)
    → Indexed (index_record s x).index (move_last l x) rest
unfolding index_record move_last
index_record-Indexed s (seg, off, r) l rest a h =
    let later = λ (e : ℕ × Loc). All (λ (y : ℕ × ℕ × Record). Before e.1 (loc_of y)) rest in
    record {
      order =
          by_location-insert r.id (seg, off) s.index h.distinct
            (All-weaken (λ (e : ℕ × Loc). All (λ y. Before e.1 (loc_of y)) ((seg, off, r) ∷ rest))
              (λ (e : ℕ × Loc). Before e.1 (seg, off)) (λ e p. p.0) s.index h.behind)
          ∙ ap (λ (m : Map Loc). remove r.id m ++ (r.id, (seg, off)) ∷ []) h.order
          ∙ ap (λ (m : Map Loc). m ++ (r.id, (seg, off)) ∷ []) (sym (map-remove r.id l))
          ∙ sym (map-append_key (remove r.id l) ((r.id, ((seg, off), r)) ∷ []));
      distinct = insert-DistinctKeys r.id (seg, off) s.index h.distinct;
      behind =
          insert-All later r.id (seg, off) s.index a.0
            (All-weaken (λ (e : ℕ × Loc). All (λ y. Before e.1 (loc_of y)) ((seg, off, r) ∷ rest))
              later (λ e p. p.1) s.index h.behind);
    }

pub index_records-Indexed :
    (log : List (ℕ × ℕ × Record)) (s : EngineState) (l : Latest)
    → IsAscending log
    → Indexed s.index l log
    → Indexed (index_records s log).index (latest_from l log) []
unfolding index_records latest_from
index_records-Indexed [] s l a h = h
index_records-Indexed (x ∷ log) s l a h =
    index_records-Indexed log (index_record s x) (move_last l x) a.1
      (index_record-Indexed s x l log a h)

abbrev first {ℓ} : {V : Type ℓ} → Option V → Option V → Option V
first none other = other
first (some v) other = some v

lookup-append {ℓ} :
    {V : Type ℓ} (id : ℕ) (m : Map V) (k : ℕ) (v : V)
    → lookup id (m ++ (k, v) ∷ []) ≡ first (lookup id m) (if k == id then some v else none)
unfolding lookup
lookup-append id [] k v = refl
lookup-append id ((j, w) ∷ m) k v = elim (Bool-cases (j == id)) [
  | inl same ↦ rw (lookup, same)
  | inr other ↦ rw (lookup, other) (lookup-append id m k v)
]

pub lookup-move_last :
    (l : Latest) (seg off : ℕ) (r : Record) (id : ℕ)
    → lookup id (move_last l (seg, off, r))
      ≡ (if r.id == id then some ((seg, off), r) else lookup id l)
unfolding move_last
lookup-move_last l seg off r id = elim (Bool-cases (r.id == id)) [
  | inl same ↦
      ground (arith, lookup-append id (remove r.id l) r.id ((seg, off), r), lookup-remove r.id id l)
  | inr other ↦
      ground (arith, lookup-append id (remove r.id l) r.id ((seg, off), r), lookup-remove r.id id l)
]

-- Task by task: the index is the last place, and a task with data is in the log.
pub record Tracks (index : Map Loc) (data_index : Map Loc) (l : Latest) : Type 0 where
  pub places : (id : ℕ) → lookup id index ≡ Option.map (λ x. x.0) (lookup id l)
  pub known : (id : ℕ) → contains id data_index ≡ true → contains id l ≡ true

index_record-Tracks :
    (s : EngineState) (x : ℕ × ℕ × Record) (l : Latest)
    → Tracks s.index s.data_index l
    → Tracks (index_record s x).index (index_record s x).data_index (move_last l x)
unfolding index_record
index_record-Tracks s (seg, off, r) l t = record {
  places = λ id. ground (
    arith,
    lookup-insert r.id id (seg, off) s.index,
    lookup-move_last l seg off r id,
    t.places id,
  );
  known = λ id h. ground (
    arith,
    lookup-insert r.id id (seg, off) s.data_index,
    lookup-move_last l seg off r id,
    t.known id,
  );
}

pub index_records-Tracks :
    (log : List (ℕ × ℕ × Record)) (s : EngineState) (l : Latest)
    → Tracks s.index s.data_index l
    → Tracks (index_records s log).index (index_records s log).data_index (latest_from l log)
unfolding index_records latest_from
index_records-Tracks [] s l t = t
index_records-Tracks (x ∷ log) s l t =
    index_records-Tracks log (index_record s x) (move_last l x) (index_record-Tracks s x l t)

index_record-created :
    (s : EngineState) (x : ℕ × ℕ × Record) (id : ℕ)
    → lookup id (index_record s x).data_index ≡ or_else (created_at id x) (lookup id s.data_index)
unfolding index_record
index_record-created s (seg, off, r) id = by_op r.op_type
  where
    by_op :
        (op : OpType)
        → lookup id (if is_created op then insert r.id (seg, off) s.data_index else s.data_index)
          ≡ or_else
              (if r.id == id && creates op then some (seg, off) else none)
              (lookup id s.data_index)
    by_op OpType.created = ground (arith, lookup-insert r.id id (seg, off) s.data_index)
    by_op OpType.leased = ground arith
    by_op OpType.acked = ground arith
    by_op OpType.nacked = ground arith
    by_op OpType.expired = ground arith
    by_op OpType.dead_lettered = ground arith

-- The first pass leaves in the data index the place of the last creation of each task.
pub index_records-created :
    (log : List (ℕ × ℕ × Record)) (s : EngineState) (id : ℕ)
    → lookup id (index_records s log).data_index
      ≡ or_else (last_created id log) (lookup id s.data_index)
unfolding index_records
index_records-created [] s id = refl
index_records-created (x ∷ log) s id =
    index_records-created log (index_record s x) id
    ∙ ap (or_else (last_created id log)) (index_record-created s x id)
    ∙ assoc (last_created id log) (created_at id x) (lookup id s.data_index)
  where
    assoc : (a b c : Option Loc) → or_else a (or_else b c) ≡ or_else (or_else a b) c
    assoc none b c = refl
    assoc (some loc) b c = refl
