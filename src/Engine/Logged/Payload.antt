-- ===== src/Engine/Logged/Payload.antt =====
-- storage/engine.rs: the place that an engine keeps of a task is that of its creation, and the
-- cache has the payload of the creation.
use nesso.Base.{
  ℕ, ◌+◌, ◌^◌, ◌≤◌, ◌<◌, ◌≡◌, ◌≢◌, refl, ap, sym, ◌∙◌, subst, Bool, true, false, Option, none, some,
  List, [], ◌∷◌, ◌++◌, append_assoc, append-nil, ◌⊎◌, All, leb, ◌==◌, if◌then◌else◌, arith,
  Option-cases, Bool-cases, inl, inr, ==_refl, add_u8, add_u64, ==_iff,
}
use nesso.Base.Maps.{lookup, lookup-insert, lookup-remove}
use nesso.Cache
use nesso.Cache.{Payload, PayloadCache}
use nesso.Cache.Contents.{lookup-insert_sound}
use nesso.Record.{Record, OpType}
use nesso.Engine.{Engine, EngineState, Loc, push_indexed}
use nesso.Engine.Logged.Steps.{created_record}

-- A record of the log that created task `id` at the place; a payload under the id in the cache is
-- its payload.
pub record Creation (log : List (ℕ × ℕ × Record)) (cache : PayloadCache) (id : ℕ) (loc : Loc)
    : Type 0 where
  pub before : List (ℕ × ℕ × Record)
  pub after : List (ℕ × ℕ × Record)
  pub record_ : Record
  pub found : log ≡ before ++ (loc.0, loc.1, record_) ∷ after
  pub own : record_.id ≡ id
  pub creates : record_.op_type ≡ OpType.created
  pub cached : (p : Payload) → lookup id cache.entries ≡ some p → p ≡ record_.payload

-- Every place of a payload is that of a creation, and the cache has payloads of ids given out.
pub record Keeps (log : List (ℕ × ℕ × Record)) (s : EngineState) : Type 0 where
  pub creation :
      (id : ℕ) (loc : Loc) → lookup id s.data_index ≡ some loc → Creation log s.payload_cache id loc
  pub given : (id : ℕ) (p : Payload) → lookup id s.payload_cache.entries ≡ some p → id < s.next_id

-- No place and no payload comes in.
pub record Shrinks (s s' : EngineState) : Type 0 where
  pub places :
      (id : ℕ) (loc : Loc) → lookup id s'.data_index ≡ some loc → lookup id s.data_index ≡ some loc
  pub payloads :
      (id : ℕ) (p : Payload)
      → lookup id s'.payload_cache.entries ≡ some p
      → lookup id s.payload_cache.entries ≡ some p
  pub ids : s.next_id ≤ s'.next_id

Creation-snoc :
    (log : List (ℕ × ℕ × Record)) (x : ℕ × ℕ × Record) (cache cache' : PayloadCache) (id : ℕ)
    (loc : Loc)
    → ((p : Payload) → lookup id cache'.entries ≡ some p → lookup id cache.entries ≡ some p)
    → Creation log cache id loc
    → Creation (log ++ x ∷ []) cache' id loc
Creation-snoc log x cache cache' id loc old c = record {
  before = c.before;
  after = c.after ++ x ∷ [];
  record_ = c.record_;
  found =
      ap (λ (l : List (ℕ × ℕ × Record)). l ++ x ∷ []) c.found
      ∙ append_assoc c.before ((loc.0, loc.1, c.record_) ∷ c.after) (x ∷ []);
  own = c.own;
  creates = c.creates;
  cached = λ p h. c.cached p (old p h);
}

pub Shrinks-Keeps :
    (log : List (ℕ × ℕ × Record)) (x : ℕ × ℕ × Record) (s s' : EngineState)
    → Shrinks s s'
    → Keeps log s
    → Keeps (log ++ x ∷ []) s'
Shrinks-Keeps log x s s' h k = record {
  creation = λ id loc placed.
      Creation-snoc log x s.payload_cache s'.payload_cache id loc (h.payloads id)
        (k.creation id loc (h.places id loc placed));
  given = λ id p held. omega (arith, k.given id p (h.payloads id p held), h.ids);
}

-- The two together, as each operation leaves them.
pub forgotten-Shrinks :
    (s s' : EngineState) (id : ℕ)
    → s'.next_id ≡ s.next_id
    → s'.data_index ≡ nesso.Base.Maps.remove id s.data_index
    → s'.payload_cache ≡ (Cache.remove s.payload_cache id).1
    → Shrinks s s'
unfolding Cache.remove
forgotten-Shrinks s s' id same index cache = record {
  places = λ j loc h. ground (arith, lookup-remove id j s.data_index, rw index at h);
  payloads = λ j p h. ground (arith, lookup-remove id j s.payload_cache.entries, rw cache at h);
  ids = omega (arith, same);
}

pub get-entries : (c : PayloadCache) (id : ℕ) → (Cache.get c id).1.entries ≡ c.entries
unfolding Cache.get
get-entries c id = elim (Option-cases (lookup id c.entries)) [
  | inl missing ↦ rw (Cache.get, missing) refl
  | inr (p, found) ↦ rw (Cache.get, found) refl
]

pub push-Keeps :
    (log : List (ℕ × ℕ × Record)) (e : Engine) (s : EngineState) (payload : Payload) (priority : ℕ)
    (loc : Loc)
    → e.inner.next_id ≡ s.next_id + 1
    → e.inner.data_index ≡ s.data_index
    → e.inner.payload_cache ≡ s.payload_cache
    → Keeps log s
    → Keeps
        (log ++ (loc.0, loc.1, created_record s.next_id priority payload) ∷ [])
        (push_indexed e s.next_id payload priority loc).inner
unfolding push_indexed
push-Keeps log e s payload priority loc next index cache k =
    let id = s.next_id in
    let x : ℕ × ℕ × Record = (loc.0, loc.1, created_record id priority payload) in
    let c = Cache.insert e.inner.payload_cache id payload in
    let sound : (j : ℕ) (p : Payload)
        → lookup j c.entries ≡ some p
        → ((j ≡ id) × (p ≡ payload)) ⊎ (lookup j s.payload_cache.entries ≡ some p) =
      λ j p held. rw cache at (lookup-insert_sound e.inner.payload_cache id payload j p held) in
    let fresh : Creation (log ++ x ∷ []) c id loc = record {
      before = log;
      after = [];
      record_ = created_record id priority payload;
      found = refl;
      own = refl;
      creates = refl;
      cached = λ p held. elim (sound id p held) [
        | inl (_, same) ↦ same
        | inr old ↦ absurd (omega (arith, k.given id p old))
      ];
    } in
    record {
      creation = λ j at placed. elim (Bool-cases (id == j)) [
        | inl same ↦
            let here : loc ≡ at =
              ground (arith, same, lookup-insert id j loc e.inner.data_index, placed) in
            subst (λ (l : Loc). Creation (log ++ x ∷ []) c j l) here
              (subst (λ (n : ℕ). Creation (log ++ x ∷ []) c n loc) ((==_iff id j).0 same) fresh)
        | inr other ↦
            Creation-snoc log x s.payload_cache c j at
              (λ p held. elim (sound j p held) [
                | inl (same, _) ↦ absurd (ground (arith, other, sym same))
                | inr old ↦ old
              ])
              (k.creation j at (
                subst (λ m. lookup j m ≡ some at) index
                  (ground (arith, other, lookup-insert id j loc e.inner.data_index, placed))))
      ];
      given = λ j p held. elim (sound j p held) [
        | inl (same, _) ↦ omega (arith, same, next)
        | inr old ↦ omega (arith, k.given j p old, next)
      ];
    }
