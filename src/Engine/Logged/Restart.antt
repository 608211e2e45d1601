-- ===== src/Engine/Logged/Restart.antt =====
-- storage/engine.rs: an engine that ran, crashed, and was opened again.
use nesso.Base.{
  ℕ, ◌≤◌, ◌≡◌, refl, ap, sym, ◌∙◌, subst, none, some, List, [], ◌∷◌, ◌++◌, append_assoc, append-nil,
  All, All-append, length, ◌==◌, if◌then◌else◌, arith, IsU32, Bool-cases, inl, inr, ltb_refused,
}
use nesso.Base.Maps.{Map, lookup}
use nesso.Disk.{Disk, open_segment, segment_bytes}
use nesso.Record.{Record, OpType, encode}
use nesso.Wal.{
  Wal, AppendIo, iter_all, segment_ids, open_wal, open_active, recover_compaction, max_id,
  default_max_segment_size,
}
use nesso.Wal.Scan.{valid_prefix}
use nesso.Wal.Scan.Laws.{Fits, encodings}
use nesso.Wal.Scan.Recovery.{recovers_torn}
use nesso.Engine.{Engine}
use nesso.Engine.Logged.Growth.{IsOpen}
use nesso.Engine.Logged.Rotation.{GrownBy, append-Grown}
use nesso.Engine.Logged.NewSegment.{iter_segments-same}
use nesso.Engine.Logged.Run.{Writes, Step, Run}

module _ (crc32 : List ℕ → ℕ) where
  -- The name that compaction writes to is none of the log's.
  uncompacted-IsOpen :
      (w : Wal) (d : Disk) (rs : List Record)
      → IsOpen crc32 w d rs
      → IsOpen crc32 w (record d { compacting = none }) rs
  uncompacted-IsOpen w d rs o = record {
    active = record {
      named = o.active.named;
      bytes = o.active.bytes;
      size = o.active.size;
      fit = o.active.fit;
    };
    last = o.last;
    names = o.names;
    handles = o.handles;
    own = o.own;
    quiet = o.quiet;
    positive = o.positive;
  }

  uncompacted : (d : Disk) → iter_all crc32 (record d { compacting = none }) ≡ iter_all crc32 d
  unfolding iter_all
  uncompacted d =
      iter_segments-same crc32 d (record d { compacting = none }) (segment_ids d)
        (All_refl (segment_ids d))
    where
      All_refl : (ids : List ℕ) → All (λ id. segment_bytes d id ≡ segment_bytes d id) ids
      All_refl [] = tt
      All_refl (id ∷ ids) = (refl, All_refl ids)

  Step-Writes :
      (since : ℕ) (e : Engine) (x : ℕ × ℕ × Record) (e' : Engine)
      → Step crc32 since e x e'
      → (io : AppendIo) × (r : Record) × Writes crc32 since e io r x e'
  Step-Writes since e x e' (Step.pushes _ payload priority io _ _ room p w done) = (io, _, w)
  Step-Writes since e x e' (Step.pops _ c ttl now io _ _ t q answer hc pos room popped w served) =
      (io, _, w)
  Step-Writes since e x e' (Step.acks _ id io lease _ _ held w done) = (io, _, w)
  Step-Writes since e x e' (Step.nacks _ id io lease _ _ room held w done) = (io, _, w)
  Step-Writes since e x e' (Step.expires _ id io lease _ _ room held w done) = (io, _, w)

  -- What a run leaves on disk: its records, behind those that were there.
  pub record Written (e e' : Engine) (xs : List (ℕ × ℕ × Record)) : Type 0 where
    pub rs : List Record
    pub is_open : IsOpen crc32 e'.inner.wal e'.disk rs
    pub yields : iter_all crc32 e'.disk ≡ iter_all crc32 e.disk ++ xs
    pub fit : All (λ x. Fits x.2) xs

  module _ (crc32_word : (bs : List ℕ) → IsU32 (crc32 bs)) where
    -- Operations that write their records one behind the other, from an engine whose log is open,
    -- leave the log open; what the iterator yields is longer by exactly these records, in their
    -- order.
    pub Run-Written :
        (since : ℕ) (e e' : Engine) (rs : List Record) (xs : List (ℕ × ℕ × Record))
        → Run crc32 since e xs e'
        → IsOpen crc32 e.inner.wal e.disk rs
        → Written e e' xs
    Run-Written since e _ rs _ (Run.start _) o = record {
      rs = rs;
      is_open = o;
      yields = sym (append-nil (iter_all crc32 e.disk));
      fit = tt;
    }
    Run-Written since e e' rs _ (Run.next _ m _ xs x before step) o =
        let h = Run-Written since e m rs xs before o in
        let (io, r, w) = Step-Writes since m x e' step in
        let grown = subst (GrownBy crc32 crc32_word (iter_all crc32 m.disk) r) w.logged (
          append-Grown crc32 crc32_word m.inner.wal m.disk h.rs io r h.is_open w.size_room w.id_room
            w.fits) in
        record {
          rs = grown.rs;
          is_open = grown.is_open;
          yields =
              grown.yields
              ∙ ap (λ (y : ℕ × ℕ × Record). iter_all crc32 m.disk ++ y ∷ []) (sym w.entry)
              ∙ ap (λ (l : List (ℕ × ℕ × Record)). l ++ x ∷ []) h.yields
              ∙ append_assoc (iter_all crc32 e.disk) xs (x ∷ []);
          fit =
              All-append (λ (y : ℕ × ℕ × Record). Fits y.2) xs (x ∷ []) h.fit
                (subst Fits (ap (λ (y : ℕ × ℕ × Record). y.2) (sym w.entry)) w.fits, tt);
        }

    max_id-le : (m : Map ℕ) (a : ℕ) → All (λ e. e.0 ≤ a) m → max_id m ≤ a
    max_id-le [] a h = omega arith
    max_id-le ((j, i) ∷ m) a h = ground (arith, max_id-le m a h.1)

    max_id-last :
        (m : Map ℕ) (a inode : ℕ) → All (λ e. e.0 ≤ a) m → lookup a m ≡ some inode → max_id m ≡ a
    unfolding lookup
    max_id-last [] a inode h e = absurd (ground (arith, e))
    max_id-last ((j, i) ∷ m) a inode h e = elim (Bool-cases (j == a)) [
      | inl same ↦ ground (arith, max_id-le m a h.1)
      | inr other ↦ ground (arith, max_id-last m a inode h.1 (rw other at e))
    ]

    valid_prefix-encodings :
        (rs : List Record)
        → All Fits rs
        → valid_prefix crc32 (encodings crc32 rs) ≡ length (encodings crc32 rs)
    valid_prefix-encodings rs h =
        let r : Record = record { id = 0; op_type = OpType.acked; priority = 0; payload = [] } in
        ap (valid_prefix crc32) (sym (append-nil (encodings crc32 rs)))
        ∙ (recovers_torn crc32 crc32_word rs r 0 h (omega arith) (unfold encode in omega arith)).0

    -- The log as opening it again shows it.
    abbrev reopened : Wal → List Record → Wal
    reopened w rs = record {
      active_segment_id = w.active_segment_id;
      active_file = w.active_file;
      current_size = length (encodings crc32 rs);
      max_segment_size = default_max_segment_size;
    }

    open_active-whole :
        (w : Wal) (d : Disk) (rs : List Record)
        → IsOpen crc32 w d rs
        → open_active crc32 d w.active_segment_id none ≡ (reopened w rs, d)
    unfolding open_active open_segment
    open_active-whole w d rs o = rw (
      open_segment,
      o.active.named,
      o.active.bytes,
      valid_prefix-encodings rs o.active.fit,
      ltb_refused (length (encodings crc32 rs)) (length (encodings crc32 rs)) (omega arith),
    )

    -- Opening a log that was open finds it whole and leaves its files as they are.
    open_wal-whole :
        (w : Wal) (d : Disk) (rs : List Record)
        → IsOpen crc32 w d rs
        → open_wal crc32 d none ≡ (reopened w rs, record d { compacting = none })
    unfolding open_wal recover_compaction
    open_wal-whole w d rs o =
        let idle : recover_compaction d ≡ d = rw (recover_compaction, o.quiet) in
        let max = max_id-last d.segments w.active_segment_id w.active_file o.last o.active.named in
        let id : (if max_id d.segments == 0 then 1 else max_id d.segments) ≡ w.active_segment_id =
          ground (arith, max, o.positive) in
        ap
          (λ (x : Disk).
            open_active crc32 (record x { compacting = none })
              (if max_id x.segments == 0 then 1 else max_id x.segments) none)
          idle
        ∙ ap (λ (k : ℕ). open_active crc32 (record d { compacting = none }) k none) id
        ∙ open_active-whole w (record d { compacting = none }) rs (uncompacted-IsOpen w d rs o)

    pub open_wal-iter_all :
        (w : Wal) (d : Disk) (rs : List Record)
        → IsOpen crc32 w d rs
        → iter_all crc32 (open_wal crc32 d none).1 ≡ iter_all crc32 d
    open_wal-iter_all w d rs o =
        ap (λ (a : Wal × Disk). iter_all crc32 a.1) (open_wal-whole w d rs o) ∙ uncompacted d

    pub open_wal-IsOpen :
        (w : Wal) (d : Disk) (rs : List Record)
        → IsOpen crc32 w d rs
        → IsOpen crc32 (open_wal crc32 d none).0 (open_wal crc32 d none).1 rs
    open_wal-IsOpen w d rs o =
        subst (λ (a : Wal × Disk). IsOpen crc32 a.0 a.1 rs) (sym (open_wal-whole w d rs o))
          (record {
            active = record {
              named = o.active.named;
              bytes = o.active.bytes;
              size = refl;
              fit = o.active.fit;
            };
            last = o.last;
            names = o.names;
            handles = o.handles;
            own = o.own;
            quiet = o.quiet;
            positive = o.positive;
          })
