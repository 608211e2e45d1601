-- ===== src/Engine/Logged/Popping.antt =====
-- storage/engine.rs, `pop_and_lease`: the payload that a pop returns.
use nesso.Base.{ℕ, ◌≡◌, Option, none, some, List, ◌∷◌, ◌++◌, IsU32}
use nesso.Base.Maps.{lookup}
use nesso.Cache
use nesso.Cache.{Payload}
use nesso.Disk.{Disk}
use nesso.Io.{Result, ok}
use nesso.Queue
use nesso.Record.{Record, OpType}
use nesso.Wal.{Wal}
use nesso.Engine.{Engine, Leased}
use nesso.Engine.Fallback.{returned}
use nesso.Engine.Logged.Run.{Run}

-- What a pop leased is at the place, and with the payload in the cache, that the engine has of it.
record Located (l : Leased) (e : Engine) : Type 0 where
  place : lookup l.task.id e.inner.data_index ≡ some l.data_loc
  cache : lookup l.task.id e.inner.payload_cache.entries ≡ l.cached

abbrev LocatedIn : Result (Option Leased) × Engine → Type 0
LocatedIn (ok (some l), e) = Located l e
LocatedIn _ = Unit {0}

abbrev LocatedAny : Option (Result (Option Leased) × Engine) → Type 0
LocatedAny none = Unit {0}
LocatedAny (some r) = LocatedIn r

module _ (crc32 : List ℕ → ℕ) where
  -- Nothing happens to the engine between the locked section and the reads.
  abbrev pub undisturbed : ℕ → Engine → Engine
  undisturbed turn e = e

  module _ (since : ℕ) (crc32_word : (bs : List ℕ) → IsU32 (crc32 bs)) where
    -- What a pop returns is the payload of a record that created the task in the log.
    pub record Pays (log : List (ℕ × ℕ × Record)) (l : Leased)
        (r : Option (Result (Option (Record × ℕ)) × Engine)) : Type 0 where
      pub before : List (ℕ × ℕ × Record)
      pub after : List (ℕ × ℕ × Record)
      pub creation : Record
      pub found : log ≡ before ++ (l.data_loc.0, l.data_loc.1, creation) ∷ after
      pub own : creation.id ≡ l.task.id
      pub creates : creation.op_type ≡ OpType.created
      pub engine : Engine
      pub answer : r ≡ some (ok (some (returned l creation.payload, l.task.retries)), engine)
