-- ===== src/Wal/Reader/Agrees.antt =====
-- storage/wal.rs: what the iterator yields, the reader reads. Both walk over the same frames, one
-- by a loop and one by a place.
use nesso.Base.{
  ℕ, zero, suc, ◌+◌, ◌≡◌, refl, ap, sym, ◌∙◌, Option, none, some, List, [], ◌∷◌, ◌++◌, length, drop,
  drop-drop, leb, ◌==◌, All, All-append, All-weaken, arith, Option-cases, Bool-cases, inl, inr,
  subst, ==_iff, if◌then◌else◌,
}
use nesso.Base.Maps.{lookup}
use nesso.Disk.{Disk, bytes_of, segment_bytes}
use mathlib.Core.Option
use mathlib.Core.Option.{some-injective}
use nesso.Io.{Result, ok}
use nesso.Record.{Record}
use nesso.Wal.{iter_segments, iter_all, segment_ids, tag}
use nesso.Wal.Scan.{Round, read_frame, frames_from, frames}
use nesso.Wal.Reader.{WalReader, max_lru_cache_size, take_entry, open_cached, read_bytes, read_at}

pub data RoundCase (r : Round) : Type 0 where
  stops : r ≡ Round.stop → RoundCase r
  reads : (n : ℕ) (o : Option Record) → r ≡ Round.frame n o → RoundCase r

pub Round-cases : (r : Round) → RoundCase r
Round-cases Round.stop = RoundCase.stops refl
Round-cases (Round.frame n o) = RoundCase.reads n o refl

module _ (crc32 : List ℕ → ℕ) where
  -- A frame that the loop reads is what stands at its offset.
  read_frame-read_bytes :
      (bytes : List ℕ) (offset n : ℕ) (o : Option Record)
      → read_frame crc32 (length bytes) offset (drop offset bytes) ≡ Round.frame n o
      → read_bytes crc32 bytes offset ≡ ok o
  unfolding read_frame read_bytes
  read_frame-read_bytes bytes offset n o e = ground arith

  abbrev Reads : List ℕ → ℕ × Record → Type 0
  Reads bytes (offset, r) = read_bytes crc32 bytes offset ≡ ok (some r)

  frames_from-Reads :
      (fuel : ℕ) (bytes : List ℕ) (offset : ℕ)
      → All (Reads bytes) (frames_from crc32 fuel (length bytes) offset (drop offset bytes))
  unfolding frames_from
  frames_from-Reads zero bytes offset = tt
  frames_from-Reads (suc fuel) bytes offset =
      elim (Round-cases (read_frame crc32 (length bytes) offset (drop offset bytes))) [
        | RoundCase.stops e ↦ rw (frames_from, e) tt
        | RoundCase.reads n none e ↦
            rw (frames_from, e, drop-drop offset n bytes)
              (frames_from-Reads fuel bytes (offset + n))
        | RoundCase.reads n (some r) e ↦
            rw (frames_from, e, drop-drop offset n bytes)
              (
                read_frame-read_bytes bytes offset n (some r) e,
                frames_from-Reads fuel bytes (offset + n),
              )
      ]

  -- What the log holds at a place.
  pub record Stands (d : Disk) (entry : ℕ × ℕ × Record) : Type 0 where
    pub inode : ℕ
    pub named : lookup entry.0 d.segments ≡ some inode
    pub read : read_bytes crc32 (bytes_of d inode) entry.1 ≡ ok (some entry.2)

  tag-Stands :
      (d : Disk) (id inode : ℕ) (rs : List (ℕ × Record))
      → lookup id d.segments ≡ some inode
      → All (Reads (bytes_of d inode)) rs
      → All (Stands d) (tag crc32 id rs)
  tag-Stands d id inode [] e h = tt
  tag-Stands d id inode ((offset, r) ∷ rs) e h =
      (record { inode = inode; named = e; read = h.0 }, tag-Stands d id inode rs e h.1)

  iter_segments-Stands : (d : Disk) (ids : List ℕ) → All (Stands d) (iter_segments crc32 d ids)
  unfolding iter_segments
  iter_segments-Stands d [] = tt
  iter_segments-Stands d (id ∷ ids) =
      All-append (Stands d) (tag crc32 id (frames crc32 (Option.get_or (segment_bytes d id) [])))
        (iter_segments crc32 d ids)
        (elim (Option-cases (lookup id d.segments)) [
          | inl missing ↦ rw missing (unfold frames frames_from read_frame in tt)
          | inr (inode, named) ↦ rw named (
              tag-Stands d id inode (frames crc32 (bytes_of d inode)) named (
                unfold frames in
                frames_from-Reads (suc (length (bytes_of d inode))) (bytes_of d inode) 0))
        ])
        (iter_segments-Stands d ids)

  pub iter_all-Stands : (d : Disk) → All (Stands d) (iter_all crc32 d)
  unfolding iter_all
  iter_all-Stands d = iter_segments-Stands d (segment_ids d)

-- The open files of a reader are those that the names of the directory point to.
abbrev pub IsCurrent : Disk → WalReader → Type 0
IsCurrent d reader = All (λ (e : ℕ × ℕ). lookup e.0 d.segments ≡ some e.1) reader.read_cache

-- What holds of all entries holds of the one that was taken and of the others.
abbrev Taken {κ} : (P : ℕ × ℕ → Type κ) → ℕ → Option (ℕ × List (ℕ × ℕ)) → Type κ
Taken P id none = Unit
Taken P id (some (inode, rest)) = P (id, inode) × All P rest

take_entry-Taken {κ} :
    (P : ℕ × ℕ → Type κ) (id : ℕ) (cache : List (ℕ × ℕ))
    → All P cache
    → Taken P id (take_entry id cache)
take_entry-Taken P id [] h = tt
take_entry-Taken P id ((j, i) ∷ cache) h = elim (Bool-cases (j == id)) [
  | inl same ↦ rw same (subst (λ (k : ℕ). P (k, i)) ((==_iff j id).0 same) h.0, h.1)
  | inr other ↦ elim (Option-cases (take_entry id cache)) [
    | inl missing ↦ rw (other, missing) tt
    | inr ((i', rest'), here) ↦
        let ih = rw here at (take_entry-Taken P id cache h.1) in
        rw (other, here) (ih.0, (h.0, ih.1))
  ]
]

All-drop_one {κ} : (P : ℕ × ℕ → Type κ) (xs : List (ℕ × ℕ)) → All P xs → All P (drop 1 xs)
All-drop_one P [] h = tt
All-drop_one P (x ∷ xs) h = h.1

-- The handle that `read_at` works with is that of the name, and the cache stays current.
open_cached-IsCurrent :
    (reader : WalReader) (d : Disk) (id inode : ℕ)
    → IsCurrent d reader
    → lookup id d.segments ≡ some inode
    → (reader' : WalReader) × (open_cached reader d id ≡ (ok inode, reader')) × IsCurrent d reader'
unfolding open_cached
open_cached-IsCurrent reader d id inode h named =
    let P = λ (e : ℕ × ℕ). lookup e.0 d.segments ≡ some e.1 in
    let taken = take_entry-Taken P id reader.read_cache h in
    elim (Option-cases (take_entry id reader.read_cache)) [
      | inr ((i, rest), hit) ↦
          let (at, others) = rw hit at taken in
          let same : i ≡ inode = some-injective i inode (sym at ∙ named) in
          (
            record { read_cache = rest ++ (id, i) ∷ [] },
            rw (open_cached, hit, same),
            All-append P rest ((id, i) ∷ []) others (at, tt),
          )
      | inl miss ↦
          let kept =
            if leb max_lru_cache_size (length reader.read_cache)
            then drop 1 reader.read_cache
            else reader.read_cache in
          (
            record { read_cache = kept ++ (id, inode) ∷ [] },
            rw (open_cached, miss, named),
            All-append P kept ((id, inode) ∷ [])
                (elim (Bool-cases (leb max_lru_cache_size (length reader.read_cache))) [
                  | inl full ↦ rw full (All-drop_one P reader.read_cache h)
                  | inr space ↦ rw space h
                ])
                (named, tt),
          )
    ]

module _ (crc32 : List ℕ → ℕ) where
  pub read_at-Stands :
      (reader : WalReader) (d : Disk) (entry : ℕ × ℕ × Record)
      → IsCurrent d reader
      → Stands crc32 d entry
      → (reader' : WalReader) × (read_at crc32 reader d entry.0 entry.1
          ≡ (ok (some entry.2), reader'))
        × IsCurrent d reader'
  unfolding read_at
  read_at-Stands reader d (id, offset, r) h stands =
      let (reader', opened, current) =
        open_cached-IsCurrent reader d id stands.inode h stands.named in
      (reader', rw (read_at, opened, stands.read), current)

  -- The iterator and the reader agree: a reader whose open files are those of the directory reads
  -- every record that the iterator yields, at the place that it yields.
  pub read_at-iter_all :
      (reader : WalReader) (d : Disk)
      → IsCurrent d reader
      → All
          (λ (e : ℕ × ℕ × Record). (read_at crc32 reader d e.0 e.1).0 ≡ ok (some e.2))
          (iter_all crc32 d)
  read_at-iter_all reader d h =
      All-weaken (Stands crc32 d)
        (λ (e : ℕ × ℕ × Record). (read_at crc32 reader d e.0 e.1).0 ≡ ok (some e.2))
        (λ e stands.
          ap (λ (a : Result (Option Record) × WalReader). a.0)
            (read_at-Stands reader d e h stands).1)
        (iter_all crc32 d) (iter_all-Stands crc32 d)
