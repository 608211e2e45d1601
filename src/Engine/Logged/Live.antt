-- ===== src/Engine/Logged/Live.antt =====
-- storage/engine.rs: a running engine has the payload of each task that is not over.
use nesso.Base.{ℕ, ◌≡◌, sym, subst, some, List, [], ◌∷◌, ◌++◌, All, IsU32}
use nesso.Base.Maps.{lookup}
use nesso.Cache.{Payload}
use nesso.Io.{ok}
use nesso.Record.{Record, OpType}
use nesso.Wal.{iter_all}
use nesso.Engine.{Engine, Loc}
use nesso.Wal.Reader.{read_at}
use nesso.Wal.Reader.Agrees.{IsCurrent, read_at-iter_all}
use nesso.Engine.Logged.Restart.{Run-Written}
use nesso.Engine.Logged.Survival.{IsRunning}
use nesso.Engine.Logged.Payload.{Keeps}
use nesso.Engine.Logged.Keeping.{Run-Keeps}
use nesso.Engine.Logged.Run.{Run}

All-middle {κ} :
    (P : ℕ × ℕ × Record → Type κ) (before : List (ℕ × ℕ × Record)) (x : ℕ × ℕ × Record)
    (after : List (ℕ × ℕ × Record))
    → All P (before ++ x ∷ after)
    → P x
All-middle P [] x after h = h.0
All-middle P (y ∷ before) x after h = All-middle P before x after h.1

module _ (crc32 : List ℕ → ℕ) (since : ℕ) where
  module _ (crc32_word : (bs : List ℕ) → IsU32 (crc32 bs)) where
    -- What a running engine has of the payload of task `id`: the record that created the task reads
    -- at the place that the engine keeps, and a payload in the cache is that of the record.
    pub record HasPayload (e : Engine) (id : ℕ) (loc : Loc) : Type 0 where
      pub before : List (ℕ × ℕ × Record)
      pub after : List (ℕ × ℕ × Record)
      pub record_ : Record
      pub found : iter_all crc32 e.disk ≡ before ++ (loc.0, loc.1, record_) ∷ after
      pub own : record_.id ≡ id
      pub creates : record_.op_type ≡ OpType.created
      pub reads : (read_at crc32 e.reader e.disk loc.0 loc.1).0 ≡ ok (some record_)
      pub cached :
          (p : Payload) → lookup id e.inner.payload_cache.entries ≡ some p → p ≡ record_.payload

    Keeps-HasPayload :
        (e : Engine) (id : ℕ) (loc : Loc)
        → IsCurrent e.disk e.reader
        → Keeps (iter_all crc32 e.disk) e.inner
        → lookup id e.inner.data_index ≡ some loc
        → HasPayload e id loc
    Keeps-HasPayload e id loc current k placed =
        let c = k.creation id loc placed in
        let x : ℕ × ℕ × Record = (loc.0, loc.1, c.record_) in
        record {
          before = c.before;
          after = c.after;
          record_ = c.record_;
          found = c.found;
          own = c.own;
          creates = c.creates;
          reads =
              All-middle
                (λ (y : ℕ × ℕ × Record). (read_at crc32 e.reader e.disk y.0 y.1).0 ≡ ok (some y.2))
                c.before x c.after
                (subst
                  (All (λ (y : ℕ × ℕ × Record).
                    (read_at crc32 e.reader e.disk y.0 y.1).0 ≡ ok (some y.2)))
                  c.found (read_at-iter_all crc32 e.reader e.disk current));
          cached = c.cached;
        }

    -- From a running engine that keeps its payloads let operations run whose records are written.
    -- Then for each task that is not over, under the id that it was pushed with, the record that
    -- created it reads at the place that the engine keeps of it, if the reader's open files are
    -- those of the directory, and what the cache has of it is the payload of that record.
    pub live_payload :
        (e e' : Engine) (xs : List (ℕ × ℕ × Record)) (id : ℕ) (loc : Loc)
        → IsRunning crc32 since e
        → Keeps (iter_all crc32 e.disk) e.inner
        → Run crc32 since e xs e'
        → IsCurrent e'.disk e'.reader
        → lookup id e'.inner.data_index ≡ some loc
        → HasPayload e' id loc
    live_payload e e' xs id loc h k run current placed =
        let w = Run-Written crc32 crc32_word since e e' h.rs xs run h.is_open in
        let (_, k') = Run-Keeps crc32 since e e' (iter_all crc32 e.disk) xs run h.follows.valid k in
        Keeps-HasPayload e' id loc current
          (subst (λ (l : List (ℕ × ℕ × Record)). Keeps l e'.inner) (sym w.yields) k') placed
