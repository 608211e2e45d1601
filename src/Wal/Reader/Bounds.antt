-- ===== src/Wal/Reader/Bounds.antt =====
-- storage/wal.rs, `WalReader`: the number of open files.
use nesso.Base.{
  ℕ, ◌+◌, ◌≤◌, ◌≡◌, refl, some, List, [], ◌∷◌, ◌++◌, length, length-append, length-drop, drop, leb,
  ◌==◌, arith, Option-cases, Bool-cases, inl, inr,
}
use nesso.Base.Maps.{lookup}
use nesso.Disk.{Disk}
use nesso.Io.{Result, ok, err}
use nesso.Wal.Reader.{WalReader, max_lru_cache_size, take_entry, open_cached, read_at, read_handle}

take_entry-length :
    (id : ℕ) (cache : List (ℕ × ℕ)) (inode : ℕ) (rest : List (ℕ × ℕ))
    → take_entry id cache ≡ some (inode, rest)
    → length cache ≡ length rest + 1
take_entry-length id [] inode rest e = cc
take_entry-length id ((j, i) ∷ cache) inode rest e = elim (Bool-cases (j == id)) [
  | inl same ↦
      let found : some (i, cache) ≡ some (inode, rest) = rw same at e in ground (arith, found)
  | inr other ↦ elim (Option-cases (take_entry id cache)) [
    | inl missing ↦ absurd (ground (arith, (rw (other, missing) at e)))
    | inr ((i', rest'), here) ↦
        let found : some (i', (j, i) ∷ rest') ≡ some (inode, rest) = rw (other, here) at e in
        ground (arith, found, take_entry-length id cache i' rest' here)
  ]
]

push_back-length : (cache : List (ℕ × ℕ)) (e : ℕ × ℕ) → length (cache ++ e ∷ []) ≡ length cache + 1
push_back-length cache e = omega (arith, length-append cache (e ∷ []))

open_cached-bounded :
    (reader : WalReader) (d : Disk) (id : ℕ)
    → length reader.read_cache ≤ max_lru_cache_size
    → length (open_cached reader d id).1.read_cache ≤ max_lru_cache_size
unfolding open_cached
open_cached-bounded reader d id h = elim (Option-cases (take_entry id reader.read_cache)) [
  | inr ((inode, rest), hit) ↦
      rw (open_cached, hit)
        (omega (
          arith,
          push_back-length rest (id, inode),
          take_entry-length id reader.read_cache inode rest hit,
        ))
  | inl miss ↦ elim (Option-cases (lookup id d.segments)) [
    | inl unnamed ↦ rw (open_cached, miss, unnamed) h
    | inr (inode, named) ↦ elim (Bool-cases (leb max_lru_cache_size (length reader.read_cache))) [
      | inl full ↦
          rw (open_cached, miss, named, full)
            (ground (
              arith,
              push_back-length (drop 1 reader.read_cache) (id, inode),
              length-drop 1 reader.read_cache,
            ))
      | inr space ↦
          rw (open_cached, miss, named, space)
            (ground (arith, push_back-length reader.read_cache (id, inode)))
    ]
  ]
]

module _ (crc32 : List ℕ → ℕ) where
  read_handle-reader :
      (d : Disk) (offset : ℕ) (r : Result ℕ × WalReader) → (read_handle crc32 d offset r).1 ≡ r.1
  read_handle-reader d offset (err e, reader) = refl
  read_handle-reader d offset (ok inode, reader) = refl

  -- A reader that has at most 8 files open has at most 8 open after any read.
  pub read_at-bounded :
      (reader : WalReader) (d : Disk) (id offset : ℕ)
      → length reader.read_cache ≤ max_lru_cache_size
      → length (read_at crc32 reader d id offset).1.read_cache ≤ max_lru_cache_size
  unfolding read_at
  read_at-bounded reader d id offset h =
      rw (read_handle-reader d offset (open_cached reader d id)) (open_cached-bounded reader d id h)
