-- ===== src/Engine/Logged/NewSegment.antt =====
-- storage/wal.rs, `rotate`: a new segment behind the others.
use nesso.Base.{
  ℕ, ◌+◌, ◌≤◌, ◌<◌, ◌≡◌, ◌≢◌, refl, ap, sym, ◌∙◌, some, List, [], ◌∷◌, ◌++◌, append_assoc,
  append-nil, All, All-weaken, leb, map, arith, Option-cases, inl, inr,
}
use mathlib.Core.Option
use nesso.Base.Keys.{lookup_absent, lookup-All, insert-All, insert-DistinctKeys}
use nesso.Base.Maps.{Map, lookup, insert, lookup-insert, lookup-insert_self}
use nesso.Base.Sort.{insert_sorted, sort}
use nesso.Base.Sorted.{sort-All}
use nesso.Disk.{Disk, segment_bytes, open_segment}
use nesso.Record.{Record}
use nesso.Wal.{Wal, iter_segments, iter_all, segment_ids, tag}
use nesso.Wal.Scan.{frames, frames_from, read_frame}
use nesso.Engine.Logged.Growth.{IsOpen, names-All}

insert_absent : (k v : ℕ) (m : Map ℕ) → All (λ e. e.0 ≢ k) m → insert k v m ≡ m ++ (k, v) ∷ []
unfolding insert
insert_absent k v [] h = refl
insert_absent k v ((j, w) ∷ m) h = ground (arith, insert_absent k v m h.1)

names-append : (m k : Map ℕ) → map (λ e. e.0) (m ++ k) ≡ map (λ e. e.0) m ++ map (λ e. e.0) k
names-append [] k = refl
names-append (x ∷ m) k = ap (◌∷◌ (x.0)) (names-append m k)

insert_sorted-snoc :
    (x k : ℕ) (l : List ℕ)
    → x < k
    → insert_sorted leb x (l ++ k ∷ []) ≡ insert_sorted leb x l ++ k ∷ []
unfolding insert_sorted
insert_sorted-snoc x k [] h = ground arith
insert_sorted-snoc x k (y ∷ l) h = ground (arith, insert_sorted-snoc x k l h)

sort-snoc :
    (k : ℕ) (l : List ℕ) → All (λ x. x < k) l → sort leb (l ++ k ∷ []) ≡ sort leb l ++ k ∷ []
unfolding sort insert_sorted
sort-snoc k [] h = refl
sort-snoc k (x ∷ l) h =
    ap (insert_sorted leb x) (sort-snoc k l h.1) ∙ insert_sorted-snoc x k (sort leb l) h.0

-- The directory with a new segment.
abbrev pub new_segment : Disk → ℕ → Disk
new_segment d id = record d {
  segments = insert id d.next_inode d.segments;
  inodes = insert d.next_inode [] d.inodes;
  next_inode = d.next_inode + 1;
}

module _ (crc32 : List ℕ → ℕ) where
  iter_segments-append :
      (d : Disk) (ids more : List ℕ)
      → iter_segments crc32 d (ids ++ more)
        ≡ iter_segments crc32 d ids ++ iter_segments crc32 d more
  unfolding iter_segments
  iter_segments-append d [] more = refl
  iter_segments-append d (id ∷ ids) more =
      let first = tag crc32 id (frames crc32 (Option.get_or (segment_bytes d id) [])) in
      ap (◌++◌ first) (iter_segments-append d ids more)
      ∙ sym (append_assoc first (iter_segments crc32 d ids) (iter_segments crc32 d more))

  pub iter_segments-same :
      (d d' : Disk) (ids : List ℕ)
      → All (λ id. segment_bytes d' id ≡ segment_bytes d id) ids
      → iter_segments crc32 d' ids ≡ iter_segments crc32 d ids
  unfolding iter_segments
  iter_segments-same d d' [] h = refl
  iter_segments-same d d' (id ∷ ids) h = rw h.0 (
      ap (◌++◌ (tag crc32 id (frames crc32 (Option.get_or (segment_bytes d id) []))))
        (iter_segments-same d d' ids h.1))

  names_below :
      (w : Wal) (d : Disk) (rs : List Record)
      → IsOpen crc32 w d rs
      → All (λ id. id < w.active_segment_id + 1) (map (λ e. e.0) d.segments)
  names_below w d rs o =
      names-All (λ (id : ℕ). id < w.active_segment_id + 1) d.segments
        (All-weaken (λ (e : ℕ × ℕ). e.0 ≤ w.active_segment_id) _ (λ e h. omega arith) d.segments
          o.last)

  names_absent :
      (w : Wal) (d : Disk) (rs : List Record)
      → IsOpen crc32 w d rs
      → All (λ e. e.0 ≢ w.active_segment_id + 1) d.segments
  names_absent w d rs o =
      All-weaken (λ (e : ℕ × ℕ). e.0 ≤ w.active_segment_id) _ (λ e h same. omega arith) d.segments
        o.last

  new_segment-other :
      (w : Wal) (d : Disk) (rs : List Record) (id : ℕ)
      → IsOpen crc32 w d rs
      → id < w.active_segment_id + 1
      → segment_bytes (new_segment d (w.active_segment_id + 1)) id ≡ segment_bytes d id
  new_segment-other w d rs id o below =
      let k = w.active_segment_id + 1 in
      let named = lookup-insert k id d.next_inode d.segments in
      elim (Option-cases (lookup id d.segments)) [
        | inl missing ↦ ground (arith, named, missing)
        | inr (inode, here) ↦
            let old : inode < d.next_inode =
              lookup-All (λ (e : ℕ × ℕ). e.1 < d.next_inode) id inode d.segments o.handles here in
            ground (arith, named, here, lookup-insert d.next_inode inode [] d.inodes)
      ]

  -- A new segment behind the others is empty, and shows in nothing that the iterator yields.
  pub iter_all-new_segment :
      (w : Wal) (d : Disk) (rs : List Record)
      → IsOpen crc32 w d rs
      → iter_all crc32 (new_segment d (w.active_segment_id + 1)) ≡ iter_all crc32 d
  unfolding iter_all
  iter_all-new_segment w d rs o =
      let k = w.active_segment_id + 1 in
      let d' = new_segment d k in
      let ids : segment_ids d' ≡ segment_ids d ++ k ∷ [] =
        ap (λ (m : Map ℕ). sort leb (map (λ e. e.0) m))
          (insert_absent k d.next_inode d.segments (names_absent w d rs o))
        ∙ ap (sort leb) (names-append d.segments ((k, d.next_inode) ∷ []))
        ∙ sort-snoc k (map (λ e. e.0) d.segments) (names_below w d rs o) in
      let fresh : segment_bytes d' k ≡ some [] = rw (
        lookup-insert_self k d.next_inode d.segments,
        lookup-insert_self d.next_inode [] d.inodes,
      ) in
      let nothing : iter_segments crc32 d' (k ∷ []) ≡ [] =
        unfold iter_segments frames frames_from read_frame in (rw fresh) in
      ap (iter_segments crc32 d') ids
      ∙ iter_segments-append d' (segment_ids d) (k ∷ [])
      ∙ ap (◌++◌ (iter_segments crc32 d' (segment_ids d))) nothing
      ∙ append-nil (iter_segments crc32 d' (segment_ids d))
      ∙ iter_segments-same d d' (segment_ids d) (
          All-weaken (λ (id : ℕ). id < k) _ (λ id below. new_segment-other w d rs id o below)
            (segment_ids d)
            (sort-All leb (λ (id : ℕ). id < k) (map (λ e. e.0) d.segments) (names_below w d rs o)))

  pub new_segment-IsOpen :
      (w : Wal) (d : Disk) (rs : List Record)
      → IsOpen crc32 w d rs
      → IsOpen crc32
          (record w {
            active_segment_id = w.active_segment_id + 1;
            active_file = d.next_inode;
            current_size = 0;
          })
          (new_segment d (w.active_segment_id + 1))
          []
  new_segment-IsOpen w d rs o =
      let k = w.active_segment_id + 1 in
      record {
        active = record {
          named = lookup-insert_self k d.next_inode d.segments;
          bytes = rw (lookup-insert_self d.next_inode [] d.inodes);
          size = refl;
          fit = tt;
        };
        last =
            insert-All (λ (e : ℕ × ℕ). e.0 ≤ k) k d.next_inode d.segments (omega arith)
              (All-weaken (λ (e : ℕ × ℕ). e.0 ≤ w.active_segment_id) _ (λ e h. omega arith)
                d.segments o.last);
        names = insert-DistinctKeys k d.next_inode d.segments o.names;
        handles =
            insert-All (λ (e : ℕ × ℕ). e.1 < d.next_inode + 1) k d.next_inode d.segments
              (omega arith)
              (All-weaken (λ (e : ℕ × ℕ). e.1 < d.next_inode) _ (λ e h. omega arith) d.segments
                o.handles);
        own =
            insert-All (λ (e : ℕ × ℕ). e.1 ≡ d.next_inode → e.0 ≡ k) k d.next_inode d.segments
              (λ e. refl)
              (All-weaken (λ (e : ℕ × ℕ). e.1 < d.next_inode) _ (λ e h same. absurd (omega arith))
                d.segments o.handles);
        quiet = o.quiet;
        positive = omega arith;
      }

  pub open_segment-new :
      (w : Wal) (d : Disk) (rs : List Record)
      → IsOpen crc32 w d rs
      → open_segment d (w.active_segment_id + 1)
        ≡ (d.next_inode, new_segment d (w.active_segment_id + 1))
  unfolding open_segment
  open_segment-new w d rs o =
      rw (open_segment, lookup_absent (w.active_segment_id + 1) d.segments (names_absent w d rs o))
