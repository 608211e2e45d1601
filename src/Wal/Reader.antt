-- ===== src/Wal/Reader.antt =====
-- storage/wal.rs, `WalReader`: reads of single records, through a cache of open files.
pub mod Bounds
pub mod Agrees
use nesso.Base.{
  ℕ, ◌+◌, Option, none, some, List, [], ◌∷◌, ◌++◌, length, take, drop, get_or, ltb, leb, not, ◌==◌,
  if◌then◌else◌, map,
}
use nesso.Base.Maps.{lookup}
use nesso.Io.{ErrorKind, Result, ok, err}
use nesso.Disk.{Disk, bytes_of}
use nesso.Record.{Record, decode, header_size, magic_byte, max_payload_size}
use nesso.Wal.Scan.{extract_payload_len}

-- `MAX_LRU_CACHE_SIZE`
abbrev pub max_lru_cache_size : ℕ
max_lru_cache_size = 8

-- The open files: the segment id each was opened for, and its handle. The last was used last.
pub record WalReader : Type 0 where
  pub read_cache : List (ℕ × ℕ)

abbrev pub new_reader : WalReader
new_reader = record { read_cache = [] }

unfoldable pub clear_cache : WalReader → WalReader
clear_cache reader = record { read_cache = [] }

unfoldable pub cached_count : WalReader → ℕ
cached_count reader = length reader.read_cache

unfoldable pub cached_segments : WalReader → List ℕ
cached_segments reader = map (λ e. e.0) reader.read_cache

-- `cache.iter().position(…)` with `cache.remove(idx)`: the first entry of the id, and the others.
abbrev pub take_entry : ℕ → List (ℕ × ℕ) → Option (ℕ × List (ℕ × ℕ))
take_entry id [] = none
take_entry id ((j, inode) ∷ cache) =
    if j == id
    then some (inode, cache)
    else elim (take_entry id cache) [ none ↦ none | some (i, rest) ↦ some (i, (j, inode) ∷ rest) ]

-- The first part of `read_at`: the handle, from the cache or newly opened.
unfoldable pub open_cached : WalReader → Disk → ℕ → Result ℕ × WalReader
open_cached reader d id = elim (take_entry id reader.read_cache) [
  | some (inode, rest) ↦ (ok inode, record { read_cache = rest ++ (id, inode) ∷ [] })
  | none ↦ elim (lookup id d.segments) [
    | none ↦ (err ErrorKind.not_found, reader)
    | some inode ↦
        let kept =
          if leb max_lru_cache_size (length reader.read_cache)
          then drop 1 reader.read_cache
          else reader.read_cache in
        (ok inode, record { read_cache = kept ++ (id, inode) ∷ [] })
  ]
]

module _ (crc32 : List ℕ → ℕ) where
  -- The second part: the frame at an offset of the file. The sum of offset and header size is taken
  -- not to overflow.
  unfoldable pub read_bytes : List ℕ → ℕ → Result (Option Record)
  read_bytes bytes offset =
      let rest = drop offset bytes in
      let header = take header_size rest in
      let payload_len = extract_payload_len header in
      let frame_len = header_size + payload_len in
      if ltb (length bytes) (offset + header_size)
      then ok none
      else if not (get_or header 0 0 == magic_byte)
      then err ErrorKind.invalid_data
      else if ltb max_payload_size payload_len
      then err ErrorKind.invalid_data
      else if ltb (length bytes) (offset + frame_len)
      then ok none
      else ok (decode crc32 (take frame_len rest))

  abbrev pub read_handle : Disk → ℕ → Result ℕ × WalReader → Result (Option Record) × WalReader
  read_handle d offset (err e, reader) = (err e, reader)
  read_handle d offset (ok inode, reader) = (read_bytes (bytes_of d inode) offset, reader)

  unfoldable pub read_at : WalReader → Disk → ℕ → ℕ → Result (Option Record) × WalReader
  read_at reader d id offset = read_handle d offset (open_cached reader d id)
