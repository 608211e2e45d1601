-- ===== src/Engine/Recovery/Ascending.antt =====
-- storage/wal.rs: the iterator yields the records in the order of their places.
use nesso.Base.{
  ℕ, zero, suc, ◌+◌, ◌≤◌, ◌<◌, ◌≡◌, ◌≢◌, refl, sym, true, Option, none, some, List, [], ◌∷◌, ◌++◌,
  All, All-append, All-weaken, All-zip, length, drop, leb, arith, map, Bool-cases, inl, inr,
}
use nesso.Base.Sort.{insert_sorted, sort}
use nesso.Base.Sorted.{IsSorted, sort-All, sort-IsSorted, insert_sorted-All}
use nesso.Disk.{Disk, segment_bytes}
use nesso.Record.{Record}
use nesso.Wal.{iter_segments, iter_all, segment_ids, tag}
use nesso.Wal.Scan.{Round, read_frame, frames_from, frames}
use nesso.Wal.Reader.Agrees.{Round-cases, RoundCase}
use nesso.Base.Keys.{DistinctKeys}
use nesso.Engine.Recovery.Order.{Before}
use nesso.Engine.Recovery.Log.{loc_of, IsAscending}
use mathlib.Core.Option

abbrev Apart : List ℕ → Type 0
Apart [] = Unit {0}
Apart (x ∷ xs) = All (λ y. y ≢ x) xs × Apart xs

insert_sorted-Apart :
    (x : ℕ) (l : List ℕ) → All (λ y. y ≢ x) l → Apart l → Apart (insert_sorted leb x l)
unfolding insert_sorted
insert_sorted-Apart x [] h d = (tt, tt)
insert_sorted-Apart x (y ∷ l) h d = elim (Bool-cases (leb x y)) [
  | inl before ↦ rw before (h, d)
  | inr behind ↦ rw behind (
    insert_sorted-All leb (λ (z : ℕ). z ≢ y) x l (λ e. h.0 (sym e)) d.0,
    insert_sorted-Apart x l h.1 d.1,
  )
]

sort-Apart : (l : List ℕ) → Apart l → Apart (sort leb l)
unfolding sort
sort-Apart [] d = tt
sort-Apart (x ∷ l) d =
    insert_sorted-Apart x (sort leb l) (sort-All leb (λ (y : ℕ). y ≢ x) l d.0) (sort-Apart l d.1)

abbrev pub IsIncreasing : List ℕ → Type 0
IsIncreasing [] = Unit {0}
IsIncreasing (x ∷ xs) = All (λ y. x < y) xs × IsIncreasing xs

Apart-IsIncreasing : (l : List ℕ) → IsSorted leb l → Apart l → IsIncreasing l
Apart-IsIncreasing [] h d = tt
Apart-IsIncreasing (x ∷ l) h d = (
  All-zip (λ (y : ℕ). leb x y ≡ true) (λ (y : ℕ). y ≢ x) (λ (y : ℕ). x < y)
      (λ y p q. ground (arith, q)) l h.0 d.0,
  Apart-IsIncreasing l h.1 d.1,
)

names-Apart : (m : List (ℕ × ℕ)) → DistinctKeys m → Apart (map (λ e. e.0) m)
names-Apart [] d = tt
names-Apart (x ∷ m) d = (apart m d.0, names-Apart m d.1)
  where
    apart : (m : List (ℕ × ℕ)) → All (λ y. y.0 ≢ x.0) m → All (λ y. y ≢ x.0) (map (λ e. e.0) m)
    apart [] h = tt
    apart (y ∷ m) h = (h.0, apart m h.1)

pub segment_ids-IsIncreasing : (d : Disk) → DistinctKeys d.segments → IsIncreasing (segment_ids d)
segment_ids-IsIncreasing d h =
    Apart-IsIncreasing (segment_ids d)
      (sort-IsSorted leb (λ a b c p q. ground arith) (λ a b p. ground arith)
        (map (λ e. e.0) d.segments))
      (sort-Apart (map (λ e. e.0) d.segments) (names-Apart d.segments h))

IsAscending-append :
    (xs ys : List (ℕ × ℕ × Record))
    → IsAscending xs
    → IsAscending ys
    → All (λ x. All (λ y. Before (loc_of x) (loc_of y)) ys) xs
    → IsAscending (xs ++ ys)
IsAscending-append [] ys a b h = b
IsAscending-append (x ∷ xs) ys a b h = (
  All-append (λ (y : ℕ × ℕ × Record). Before (loc_of x) (loc_of y)) xs ys a.0 h.0,
  IsAscending-append xs ys a.1 b h.1,
)

module _ (crc32 : List ℕ → ℕ) where
  -- A frame has at least its header.
  read_frame-pos :
      (file_len offset : ℕ) (rest : List ℕ) (n : ℕ) (o : Option Record)
      → read_frame crc32 file_len offset rest ≡ Round.frame n o
      → 0 < n
  unfolding read_frame
  read_frame-pos file_len offset rest n o e = ground arith

  -- The offsets of a segment: none below where the loop stands, and growing.
  abbrev Growing : ℕ → List (ℕ × Record) → Type 0
  Growing low [] = Unit {0}
  Growing low ((offset, r) ∷ rs) = (low ≤ offset) × Growing (suc offset) rs

  Growing-weaken :
      (low high : ℕ) (rs : List (ℕ × Record)) → low ≤ high → Growing high rs → Growing low rs
  Growing-weaken low high [] h g = tt
  Growing-weaken low high ((offset, r) ∷ rs) h g = (omega arith, g.1)

  frames_from-Growing :
      (fuel file_len offset : ℕ) (rest : List ℕ)
      → Growing offset (frames_from crc32 fuel file_len offset rest)
  unfolding frames_from
  frames_from-Growing zero file_len offset rest = tt
  frames_from-Growing (suc fuel) file_len offset rest =
      elim (Round-cases (read_frame crc32 file_len offset rest)) [
        | RoundCase.stops e ↦ rw (frames_from, e) tt
        | RoundCase.reads n none e ↦
            rw (frames_from, e)
              (Growing-weaken offset (offset + n) _ (omega arith)
                (frames_from-Growing fuel file_len (offset + n) (drop n rest)))
        | RoundCase.reads n (some r) e ↦
            rw (frames_from, e)
              (
                (omega arith),
                Growing-weaken (suc offset) (offset + n) _
                    (omega (arith, read_frame-pos file_len offset rest n (some r) e))
                    (frames_from-Growing fuel file_len (offset + n) (drop n rest)),
              )
      ]

  tag-above :
      (id low offset : ℕ) (rs : List (ℕ × Record))
      → offset < low
      → Growing low rs
      → All (λ y. Before (id, offset) (loc_of y)) (tag crc32 id rs)
  tag-above id low offset [] h g = tt
  tag-above id low offset ((o, r) ∷ rs) h g =
      (ground arith, tag-above id (suc o) offset rs (omega arith) g.1)

  tag-IsAscending :
      (id low : ℕ) (rs : List (ℕ × Record)) → Growing low rs → IsAscending (tag crc32 id rs)
  tag-IsAscending id low [] g = tt
  tag-IsAscending id low ((o, r) ∷ rs) g =
      (tag-above id (suc o) o rs (omega arith) g.1, tag-IsAscending id (suc o) rs g.1)

  tag-segment : (id : ℕ) (rs : List (ℕ × Record)) → All (λ x. x.0 ≡ id) (tag crc32 id rs)
  tag-segment id [] = tt
  tag-segment id ((o, r) ∷ rs) = (refl, tag-segment id rs)

  iter_segments-above :
      (d : Disk) (low : ℕ) (ids : List ℕ)
      → All (λ id. low < id) ids
      → All (λ x. low < x.0) (iter_segments crc32 d ids)
  unfolding iter_segments
  iter_segments-above d low [] h = tt
  iter_segments-above d low (id ∷ ids) h =
      let fs = frames crc32 (Option.get_or (segment_bytes d id) []) in
      All-append (λ (x : ℕ × ℕ × Record). low < x.0) (tag crc32 id fs) (iter_segments crc32 d ids)
        (All-weaken (λ (x : ℕ × ℕ × Record). x.0 ≡ id) _ (λ x e. omega arith) (tag crc32 id fs)
          (tag-segment id fs))
        (iter_segments-above d low ids h.1)

  iter_segments-IsAscending :
      (d : Disk) (ids : List ℕ) → IsIncreasing ids → IsAscending (iter_segments crc32 d ids)
  unfolding iter_segments
  iter_segments-IsAscending d [] h = tt
  iter_segments-IsAscending d (id ∷ ids) h =
      let bytes = Option.get_or (segment_bytes d id) [] in
      let fs = frames crc32 bytes in
      let later = iter_segments crc32 d ids in
      let above = iter_segments-above d id ids h.0 in
      IsAscending-append (tag crc32 id fs) later
        (tag-IsAscending id 0 fs
          (unfold frames in frames_from-Growing (suc (length bytes)) (length bytes) 0 bytes))
        (iter_segments-IsAscending d ids h.1)
        (All-weaken (λ (x : ℕ × ℕ × Record). x.0 ≡ id)
          (λ (x : ℕ × ℕ × Record). All (λ y. Before (loc_of x) (loc_of y)) later)
          (λ x e.
            All-weaken (λ (y : ℕ × ℕ × Record). id < y.0) _ (λ y l. ground (arith, e)) later above)
          (tag crc32 id fs) (tag-segment id fs))

  -- In a directory where each segment has one name, places grow along what the iterator yields.
  pub iter_all-IsAscending : (d : Disk) → DistinctKeys d.segments → IsAscending (iter_all crc32 d)
  unfolding iter_all
  iter_all-IsAscending d h =
      iter_segments-IsAscending d (segment_ids d) (segment_ids-IsIncreasing d h)
