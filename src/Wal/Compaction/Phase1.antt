-- ===== src/Wal/Compaction/Phase1.antt =====
-- storage/wal.rs, `execute_compaction_phase1` as a whole: what it scans, and where it writes.
use nesso.Base.{
  elem, ℕ, ◌+◌, ◌≡◌, refl, ap, ◌∙◌, Bool, true, ◌||◌, Option, some, List, [], ◌∷◌, ◌++◌, length,
  map, leb, ◌==◌, All, arith, Bool-cases, Option-cases, inl, inr, ==_iff,
}
use mathlib.Core.Option
use nesso.Base.Maps.{Map, lookup, insert, contains, is_some, lookup-insert, lookup-insert_self}
use nesso.Base.Sort.{sort, insert_sorted}
use nesso.Disk.{Disk, bytes_of, segment_bytes}
use nesso.Io.{ok}
use nesso.Record.{Record, encode}
use nesso.Wal.Scan.{frames}
use nesso.Wal.Compaction.{
  CompactionStats, Survivors, absorb_all, no_survivors, scan_closed, consolidate, write_survivors,
  surviving_ids, execute_compaction_phase1,
}
use nesso.Wal.Compaction.Latest.{absorb_all-append}
use nesso.Wal.Compaction.Offsets.{write_survivors-gone, write_survivors-kept}

elem-insert_sorted :
    (le : ℕ → ℕ → Bool) (k x : ℕ) (xs : List ℕ)
    → elem k (insert_sorted le x xs) ≡ (x == k || elem k xs)
unfolding insert_sorted
elem-insert_sorted le k x [] = refl
elem-insert_sorted le k x (y ∷ ys) = ground (arith, elem-insert_sorted le k x ys)

elem-sort : (le : ℕ → ℕ → Bool) (k : ℕ) (xs : List ℕ) → elem k (sort le xs) ≡ elem k xs
unfolding sort
elem-sort le k [] = refl
elem-sort le k (x ∷ xs) = ground (arith, elem-sort le k xs, elem-insert_sorted le k x (sort le xs))

elem-keys :
    {V : Type 0} (k : ℕ) (v : V) (m : Map V)
    → lookup k m ≡ some v
    → elem k (map (λ e. e.0) m) ≡ true
unfolding lookup
elem-keys k v [] e = cc
elem-keys k v ((j, w) ∷ m) e = ground (arith, elem-keys k v m)

module _ (crc32 : List ℕ → ℕ) where
  -- The records of the segments, one behind the other.
  abbrev pub closed_records : Disk → List ℕ → List (ℕ × Record)
  closed_records d [] = []
  closed_records d (id ∷ ids) =
      frames crc32 (Option.get_or (segment_bytes d id) []) ++ closed_records d ids

  scan_closed-ok :
      (d : Disk) (s : Survivors) (closed : List ℕ)
      → All (λ id. is_some (segment_bytes d id) ≡ true) closed
      → scan_closed crc32 d s closed ≡ ok (absorb_all s (closed_records d closed))
  unfolding scan_closed
  scan_closed-ok d s [] p = unfold absorb_all in refl
  scan_closed-ok d s (id ∷ ids) (p, ps) = elim (Option-cases (segment_bytes d id)) [
    | inl missing ↦ absurd (ground (arith))
    | inr (raw, e) ↦
        rw (scan_closed, e, absorb_all-append (frames crc32 raw) (closed_records d ids) s)
          (scan_closed-ok d (absorb_all s (frames crc32 raw)) ids ps)
  ]

  write_survivors-has :
      (s : Survivors) (ids : List ℕ) (offset id : ℕ) (r : Record)
      → elem id ids ≡ true
      → lookup id s.latest_records ≡ some r
      → contains id (write_survivors crc32 s offset ids).1 ≡ true
  write_survivors-has s [] offset id r h e = cc
  write_survivors-has s (i ∷ ids) offset id r h e =
      elim (Option-cases (lookup i s.latest_records)) [
        | inl gone ↦
            rw (write_survivors-gone crc32 s offset i ids gone)
              (write_survivors-has s ids offset id r (ground (arith, ==_iff i id)) e)
        | inr (x, kept) ↦
            let bytes = encode crc32 (consolidate s.created_payloads x) in
            let t = write_survivors crc32 s (offset + length bytes) ids in
            rw (write_survivors-kept crc32 s offset i ids x kept) (elim (Bool-cases (i == id)) [
              | inl same ↦ ground (arith, lookup-insert i id offset t.1)
              | inr other ↦ ground (
                arith,
                lookup-insert i id offset t.1,
                write_survivors-has s ids (offset + length bytes) id r,
              )
            ])
      ]

  -- What phase 1 leaves of closed segments that are all there: the survivors of their records in a
  -- new file, which is not a segment yet, the offsets in it, and the plan.
  pub record IsPlanned (d : Disk) (closed : List ℕ) : Type 0 where
    pub stats : CompactionStats
    pub offsets : Map ℕ
    pub disk : Disk
    pub answer : execute_compaction_phase1 crc32 d closed ≡ ok ((stats, offsets), disk)
    pub file : disk.compacting ≡ some d.next_inode
    pub segments : disk.segments ≡ d.segments
    pub plan : disk.plan ≡ some closed
    pub written : (bytes_of disk d.next_inode, offsets) ≡ (
        let s = absorb_all no_survivors (closed_records d closed) in
        write_survivors crc32 s 0 (surviving_ids s))
    pub complete :
        (id : ℕ)
        → contains id (absorb_all no_survivors (closed_records d closed)).latest_records ≡ true
        → contains id offsets ≡ true

  pub execute_compaction_phase1-IsPlanned :
      (d : Disk) (closed : List ℕ)
      → All (λ id. is_some (segment_bytes d id) ≡ true) closed
      → IsPlanned d closed
  unfolding execute_compaction_phase1
  execute_compaction_phase1-IsPlanned d closed present =
      let s = absorb_all no_survivors (closed_records d closed) in
      let w = write_survivors crc32 s 0 (surviving_ids s) in
      record {
        stats = record {
          closed_segments_compacted = length closed;
          surviving_records = length (surviving_ids s);
          new_segment_id = 1;
        };
        offsets = w.1;
        disk = record d {
          inodes = insert d.next_inode w.0 d.inodes;
          compacting = some d.next_inode;
          next_inode = d.next_inode + 1;
          plan = some closed;
        };
        answer = rw (execute_compaction_phase1, scan_closed-ok d no_survivors closed present);
        file = refl;
        segments = refl;
        plan = refl;
        written =
            ap (λ (o : Option (List ℕ)). (Option.get_or o [], w.1))
              (lookup-insert_self d.next_inode w.0 d.inodes);
        complete = λ id there. elim (Option-cases (lookup id s.latest_records)) [
          | inl gone ↦ absurd (ground arith)
          | inr (r, kept) ↦
              write_survivors-has s (surviving_ids s) 0 id r
                (elem-sort leb id (map (λ e. e.0) s.latest_records)
                  ∙ elem-keys id r s.latest_records kept)
                kept
        ];
      }
