-- ===== src/Engine/Fallback.antt =====
-- storage/engine.rs, `pop_and_lease`: what happens behind its locked section. A read from disk is
-- made without the lock, so others may change the engine before it: `others n` is what they do
-- before the n-th of these unlocked steps.
use nesso.Base.{ℕ, zero, suc, ◌+◌, Option, none, some, List, [], drop, length, leb, if◌then◌else◌}
use nesso.Base.Maps.{lookup}
use nesso.Cache.{Payload}
use nesso.Io.{ErrorKind, Result, ok, err}
use nesso.Record.{Record, OpType}
use nesso.Wal.Reader.{WalReader, read_at}
use nesso.Wal.{AppendIo}
use nesso.Engine.{Engine, Leased, Loc, lease_next}

-- The payload of the user in a record that compaction may have consolidated.
unfoldable pub user_payload : OpType → List ℕ → Payload
user_payload OpType.created payload = payload
user_payload OpType.leased payload = if leb 13 (length payload) then drop 13 payload else []
user_payload OpType.nacked payload = if leb 1 (length payload) then drop 1 payload else []
user_payload OpType.expired payload = if leb 1 (length payload) then drop 1 payload else []
user_payload OpType.acked payload = payload
user_payload OpType.dead_lettered payload = payload

abbrev Popped : Type 0
Popped = Result (Option (Record × ℕ)) × Engine

abbrev set_reader : Engine → WalReader → Engine
set_reader e reader = record e { reader = reader }

abbrev pub returned : Leased → Payload → Record
returned l payload = record {
  id = l.task.id;
  op_type = OpType.created;
  priority = l.task.priority;
  payload = payload;
}

module _ (crc32 : List ℕ → ℕ) (others : ℕ → Engine → Engine) where
  -- The answer of one read: a record, an error, or one more round at the location that the index
  -- has now, if the file is gone and a round is left.
  abbrev read_answer :
      Leased → Engine → (left : ℕ) → (again : Loc → Popped) → Result (Option Record) → Popped
  read_answer l e left again (ok (some r)) =
      (ok (some (returned l (user_payload r.op_type r.payload), l.task.retries)), e)
  read_answer l e left again (ok none) = (err ErrorKind.invalid_data, e)
  read_answer l e (suc left) again (err ErrorKind.not_found) =
      elim (lookup l.task.id e.inner.data_index) [
        | none ↦ (err ErrorKind.not_found, e)
        | some loc ↦ again loc
      ]
  read_answer l e left again (err k) = (err k, e)

  -- `for retry in 0..3`: `left` rounds remain, and `turn` counts the unlocked steps so far.
  unfoldable pub read_rounds : (left : ℕ) → (turn : ℕ) → Leased → Loc → Engine → Popped
  read_rounds zero turn l loc e = (err ErrorKind.not_found, e)
  read_rounds (suc left) turn l loc e =
      let e' = others turn e in
      let answer = read_at crc32 e'.reader e'.disk loc.0 loc.1 in
      let e'' = others (turn + 1) (set_reader e' answer.1) in
      read_answer l e'' left (λ loc'. read_rounds left (turn + 2) l loc' e'') answer.0

  unfoldable pub finish_pop : Result (Option Leased) × Engine → Popped
  finish_pop (err k, e) = (err k, e)
  finish_pop (ok none, e) = (ok none, e)
  finish_pop (ok (some l), e) = elim l.cached [
    | some payload ↦ (ok (some (returned l payload, l.task.retries)), e)
    | none ↦ read_rounds 3 0 l l.data_loc e
  ]

  unfoldable pub pop_and_lease : Engine → ℕ → ℕ → (now : ℕ) → AppendIo → Option Popped
  pop_and_lease e consumer_id lease_ttl_secs now io =
      elim (lease_next crc32 e consumer_id lease_ttl_secs now io) [
        | none ↦ none
        | some r ↦ some (finish_pop r)
      ]
