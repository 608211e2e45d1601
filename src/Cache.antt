-- ===== src/Cache.antt =====
-- storage/payload_cache.rs: payloads of recent tasks in memory, first in first out under a bound.
pub mod Invariant
pub mod Contents
mod Runs
use nesso.Base.{
  ℕ, ◌+◌, ◌*◌, ◌%◌, ◌^◌, Bool, true, false, Option, none, some, List, [], ◌∷◌, ◌++◌, length, ltb,
  ◌==◌, if◌then◌else◌, add_u64,
}
use nesso.Base.Maps.{Map, lookup, insert as insert_entry, remove as remove_entry, contains, is_some}

abbrev pub Payload : Type 0
Payload = List ℕ

pub record PayloadCache : Type 0 where
  pub capacity : ℕ
  pub entries : Map Payload
  pub order : List ℕ
  pub hits : ℕ
  pub misses : ℕ
  pub evictions : ℕ

-- `DEFAULT_PAYLOAD_CACHE_CAPACITY`
abbrev pub default_payload_cache_capacity : ℕ
default_payload_cache_capacity = 10000

unfoldable pub new : ℕ → PayloadCache
new capacity = record {
  capacity = capacity;
  entries = [];
  order = [];
  hits = 0;
  misses = 0;
  evictions = 0;
}

unfoldable pub get : PayloadCache → ℕ → Option Payload × PayloadCache
get c id = elim (lookup id c.entries) [
  | some payload ↦ (some payload, record c { hits = add_u64 c.hits 1 })
  | none ↦ (none, record c { misses = add_u64 c.misses 1 })
]

-- `while self.entries.len() > self.capacity { … }`: each round takes one id off the order, and the
-- loop ends with the first that was still stored, or with the order.
unfoldable pub evict : PayloadCache → List ℕ → PayloadCache
evict c [] = record c { order = [] }
evict c (oldest_id ∷ order) =
    let rest = evict c order in
    if ltb c.capacity (length c.entries)
    then (if contains oldest_id c.entries
        then record c {
          entries = remove_entry oldest_id c.entries;
          order = order;
          evictions = add_u64 c.evictions 1;
        }
        else rest)
    else record c { order = oldest_id ∷ order }

-- `self.order.retain(|k| entries.contains_key(k))`
unfoldable pub retain_live : Map Payload → List ℕ → List ℕ
retain_live entries [] = []
retain_live entries (k ∷ ks) =
    if contains k entries then k ∷ retain_live entries ks else retain_live entries ks

unfoldable pub hygiene : PayloadCache → PayloadCache
hygiene c =
    if ltb (c.capacity * 2 % 2 ^ 64) (length c.order)
    then record c { order = retain_live c.entries c.order }
    else c

unfoldable pub store : PayloadCache → ℕ → Payload → PayloadCache
store c id payload = record c {
  entries = insert_entry id payload c.entries;
  order = if contains id c.entries then c.order else c.order ++ id ∷ [];
}

unfoldable pub insert : PayloadCache → ℕ → Payload → PayloadCache
insert c id payload =
    if c.capacity == 0 then c else hygiene (evict (store c id payload) (store c id payload).order)

unfoldable pub remove : PayloadCache → ℕ → Option Payload × PayloadCache
remove c id = (lookup id c.entries, record c { entries = remove_entry id c.entries })

unfoldable pub clear : PayloadCache → PayloadCache
clear c = record c { entries = []; order = [] }

unfoldable pub len : PayloadCache → ℕ
len c = length c.entries

unfoldable pub stats : PayloadCache → ℕ × ℕ × ℕ
stats c = (c.hits, c.misses, c.evictions)
