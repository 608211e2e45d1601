-- ===== src/Engine/Logged/Growth.antt =====
-- storage/wal.rs, `append`: what the iterator yields grows by the record that was written.
use nesso.Base.{
  ℕ, ◌+◌, ◌^◌, ◌≤◌, ◌<◌, ◌≡◌, ◌≢◌, refl, ap, sym, ◌∙◌, Bool, true, ◌||◌, none, List, [], ◌∷◌, ◌++◌,
  append_assoc, append-nil, All, length, length-append, leb, ◌==◌, elem, if◌then◌else◌, map, arith,
  IsU32, Bool-cases, Option-cases, inl, inr, ==_iff,
}
use mathlib.Core.Option
use mathlib.Core.Option.{some-injective}
use nesso.Base.Keys.{DistinctKeys, lookup-All}
use nesso.Base.Maps.{Map, lookup, contains, lookup-insert}
use nesso.Base.Sort.{insert_sorted, sort}
use nesso.Base.Sorted.{sort-All}
use nesso.Disk.{Disk, bytes_of, segment_bytes, write_inode}
use nesso.Record.{Record, encode}
use nesso.Wal.{
  Wal, WriteOutcome, write_record, iter_segments, iter_all, segment_ids, tag, plan_file,
}
use nesso.Wal.Append.{Holds, write_record-Holds}
use nesso.Wal.Scan.{frames}
use nesso.Wal.Scan.Laws.{Fits, encodings, placed}
use nesso.Wal.Scan.Recovery.{recovers_torn}
use nesso.Engine.Recovery.Ascending.{IsIncreasing, segment_ids-IsIncreasing}

module _ (crc32 : List ℕ → ℕ) where
  -- A log that is open: the active segment is the last one and holds whole frames, its file has no
  -- other name, the handles were all given out, and no compaction was interrupted.
  pub record IsOpen (w : Wal) (d : Disk) (rs : List Record) : Type 0 where
    pub active : Holds crc32 w d rs
    pub last : All (λ e. e.0 ≤ w.active_segment_id) d.segments
    pub names : DistinctKeys d.segments
    pub handles : All (λ e. e.1 < d.next_inode) d.segments
    pub own : All (λ e. e.1 ≡ w.active_file → e.0 ≡ w.active_segment_id) d.segments
    pub quiet : plan_file d ≡ none
    pub positive : 0 < w.active_segment_id

-- The ids of the segments are the names.
elem-insert_sorted : (k x : ℕ) (l : List ℕ) → elem k (insert_sorted leb x l) ≡ (x == k || elem k l)
unfolding insert_sorted
elem-insert_sorted k x [] = refl
elem-insert_sorted k x (y ∷ l) = ground (arith, elem-insert_sorted k x l)

elem-sort : (k : ℕ) (l : List ℕ) → elem k (sort leb l) ≡ elem k l
unfolding sort
elem-sort k [] = refl
elem-sort k (x ∷ l) = ground (arith, elem-insert_sorted k x (sort leb l), elem-sort k l)

elem-names : (k : ℕ) (m : Map ℕ) → elem k (map (λ e. e.0) m) ≡ contains k m
unfolding lookup
elem-names k [] = refl
elem-names k ((j, v) ∷ m) = ground (arith, elem-names k m)

pub names-All {κ} : (P : ℕ → Type κ) (m : Map ℕ) → All (λ e. P e.0) m → All P (map (λ e. e.0) m)
names-All P [] h = tt
names-All P (x ∷ m) h = (h.0, names-All P m h.1)

nothing_above : (a : ℕ) (ids : List ℕ) → All (λ y. a < y) ids → All (λ y. y ≤ a) ids → ids ≡ []
nothing_above a [] h k = refl
nothing_above a (id ∷ ids) h k = absurd (omega arith)

module _ (crc32 : List ℕ → ℕ) where
  tag-snoc :
      (id : ℕ) (fs : List (ℕ × Record)) (o : ℕ) (r : Record)
      → tag crc32 id (fs ++ (o, r) ∷ []) ≡ tag crc32 id fs ++ (id, o, r) ∷ []
  tag-snoc id [] o r = refl
  tag-snoc id ((p, x) ∷ fs) o r = ap (◌∷◌ (id, p, x)) (tag-snoc id fs o r)

  placed-snoc :
      (offset : ℕ) (rs : List Record) (r : Record)
      → placed crc32 offset (rs ++ r ∷ [])
        ≡ placed crc32 offset rs ++ (offset + length (encodings crc32 rs), r) ∷ []
  placed-snoc offset [] r = ap (λ (o : ℕ). (o, r) ∷ []) (omega arith)
  placed-snoc offset (x ∷ rs) r = ap (◌∷◌ (offset, x)) (
      placed-snoc (offset + length (encode crc32 x)) rs r
      ∙ ap (λ (o : ℕ). placed crc32 (offset + length (encode crc32 x)) rs ++ (o, r) ∷ [])
          (omega (arith, length-append (encode crc32 x) (encodings crc32 rs))))

  module _ (crc32_word : (bs : List ℕ) → IsU32 (crc32 bs)) where
    frames-encodings :
        (rs : List Record) (r : Record)
        → All Fits rs
        → Fits r
        → frames crc32 (encodings crc32 rs) ≡ placed crc32 0 rs
    frames-encodings rs r h v =
        ap (frames crc32) (sym (append-nil (encodings crc32 rs)))
        ∙ (recovers_torn crc32 crc32_word rs r 0 h v.small (unfold encode in omega arith)).1

    -- The segments behind a change of the last one, whose frames are one more.
    iter_segments-grows :
        (d d' : Disk) (a : ℕ) (x : ℕ × ℕ × Record) (ids : List ℕ)
        → IsIncreasing ids
        → All (λ id. id ≤ a) ids
        → ((id : ℕ) → id ≢ a → segment_bytes d' id ≡ segment_bytes d id)
        → tag crc32 a (frames crc32 (Option.get_or (segment_bytes d' a) []))
          ≡ tag crc32 a (frames crc32 (Option.get_or (segment_bytes d a) [])) ++ x ∷ []
        → iter_segments crc32 d' ids
          ≡ iter_segments crc32 d ids ++ (if elem a ids then x ∷ [] else [])
    unfolding iter_segments
    iter_segments-grows d d' a x [] inc h same grown = refl
    iter_segments-grows d d' a x (id ∷ ids) inc h same grown = elim (Bool-cases (id == a)) [
      | inl at ↦
          let e : id ≡ a = (==_iff id a).0 at in
          let empty : ids ≡ [] = nothing_above a ids (rw e at inc.0) h.1 in
          rw (at, empty)
            (append-nil (tag crc32 id (frames crc32 (Option.get_or (segment_bytes d' id) [])))
              ∙ (rw (← e) at grown)
              ∙ ap (λ (l : List (ℕ × ℕ × Record)). l ++ x ∷ [])
                  (sym (
                    append-nil
                      (tag crc32 id (frames crc32 (Option.get_or (segment_bytes d id) []))))))
      | inr before ↦
          let ne : id ≢ a = λ e. absurd (ground (arith, (==_iff id a).1 e)) in
          rw (before, same id ne)
            (ap (◌++◌ (tag crc32 id (frames crc32 (Option.get_or (segment_bytes d id) []))))
                (iter_segments-grows d d' a x ids inc.1 h.1 same grown)
              ∙ sym (
                  append_assoc (tag crc32 id (frames crc32 (Option.get_or (segment_bytes d id) [])))
                    (iter_segments crc32 d ids) (if elem a ids then x ∷ [] else [])))
    ]

    -- A write to the active file shows in no other segment.
    segment_bytes-other :
        (w : Wal) (d : Disk) (rs : List Record) (bytes : List ℕ)
        → IsOpen crc32 w d rs
        → (id : ℕ) → id ≢ w.active_segment_id
        → segment_bytes (write_inode d w.active_file bytes) id ≡ segment_bytes d id
    segment_bytes-other w d rs bytes o id ne = elim (Option-cases (lookup id d.segments)) [
      | inl missing ↦ rw missing
      | inr (inode, named) ↦
          let foreign : inode ≢ w.active_file = λ e. ne (
            lookup-All (λ (x : ℕ × ℕ). x.1 ≡ w.active_file → x.0 ≡ w.active_segment_id) id inode
              d.segments o.own named e) in
          rw named (ground (arith, foreign, lookup-insert w.active_file inode bytes d.inodes))
    ]

    -- The frames of the active segment grow by that of the record.
    active-grows :
        (w : Wal) (d : Disk) (rs : List Record) (r : Record)
        → IsOpen crc32 w d rs
        → Fits r
        → w.current_size + length (encode crc32 r) < 2 ^ 64
        → let d' = (write_record crc32 w d WriteOutcome.written r).2 in
          let a = w.active_segment_id in
          tag crc32 a (frames crc32 (Option.get_or (segment_bytes d' a) []))
          ≡ tag crc32 a (frames crc32 (Option.get_or (segment_bytes d a) []))
            ++ (a, w.current_size, r) ∷ []
    unfolding write_record
    active-grows w d rs r o v room =
        let a = w.active_segment_id in
        let (_, _, d') = write_record crc32 w d WriteOutcome.written r in
        let held = write_record-Holds crc32 w d rs r o.active v room in
        let before : frames crc32 (Option.get_or (segment_bytes d a) []) ≡ placed crc32 0 rs =
          rw (o.active.named, o.active.bytes) (frames-encodings rs r o.active.fit v) in
        let after : frames crc32 (Option.get_or (segment_bytes d' a) [])
            ≡ placed crc32 0 (rs ++ r ∷ []) =
          rw (held.named, held.bytes) (frames-encodings (rs ++ r ∷ []) r held.fit v) in
        let size : 0 + length (encodings crc32 rs) ≡ w.current_size =
          omega (arith, o.active.size) in
        ap (tag crc32 a) (after ∙ placed-snoc 0 rs r)
        ∙ tag-snoc a (placed crc32 0 rs) (0 + length (encodings crc32 rs)) r
        ∙ ap (λ (n : ℕ). tag crc32 a (placed crc32 0 rs) ++ (a, n, r) ∷ []) size
        ∙ ap (λ (fs : List (ℕ × Record)). tag crc32 a fs ++ (a, w.current_size, r) ∷ [])
            (sym before)

    pub write_record-grows :
        (w : Wal) (d : Disk) (rs : List Record) (r : Record)
        → IsOpen crc32 w d rs
        → Fits r
        → w.current_size + length (encode crc32 r) < 2 ^ 64
        → let (_, w', d') = write_record crc32 w d WriteOutcome.written r in
          (iter_all crc32 d' ≡ iter_all crc32 d ++ (w.active_segment_id, w.current_size, r) ∷ [])
          × IsOpen crc32 w' d' (rs ++ r ∷ [])
    unfolding write_record iter_all
    write_record-grows w d rs r o v room =
        let a = w.active_segment_id in
        let (_, w', d') = write_record crc32 w d WriteOutcome.written r in
        let held = write_record-Holds crc32 w d rs r o.active v room in
        let present : elem a (segment_ids d) ≡ true =
          elem-sort a (map (λ e. e.0) d.segments) ∙ elem-names a d.segments ∙ rw o.active.named in
        (
          iter_segments-grows d d' a (a, w.current_size, r) (segment_ids d)
                (segment_ids-IsIncreasing d o.names)
                (sort-All leb (λ (id : ℕ). id ≤ a) (map (λ e. e.0) d.segments)
                  (names-All (λ (id : ℕ). id ≤ a) d.segments o.last))
                (segment_bytes-other w d rs (bytes_of d w.active_file ++ encode crc32 r) o)
                (active-grows w d rs r o v room)
              ∙ ap
                  (λ (b : Bool).
                    iter_segments crc32 d (segment_ids d)
                    ++ (if b then (a, w.current_size, r) ∷ [] else []))
                  present,
          record {
            active = held;
            last = o.last;
            names = o.names;
            handles = o.handles;
            own = o.own;
            quiet = o.quiet;
            positive = o.positive;
          },
        )
