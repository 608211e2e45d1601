-- ===== src/Queue.antt =====
-- storage/priority_queue.rs: 256 buckets, first in first out, under a bitmap of four words.
pub mod Order
pub mod Invariant
pub mod Refinement
pub mod History
mod Runs
use nesso.Base.{
  ℕ, zero, suc, ◌+◌, ◌-◌, ◌*◌, ◌/◌, ◌%◌, ◌^◌, ◌<◌, bit_and, bit_or, Bool, true, false, Option, none,
  some, List, [], ◌∷◌, ◌++◌, length, get_or, set, replicate, map, ◌==◌, if◌then◌else◌, add_u64,
  sub_u64,
}
use nesso.Base.Bits.{leading_zeros, clear_mask}
use nesso.Task.{TaskRef}

-- `NUM_PRIORITIES`
abbrev pub num_priorities : ℕ
num_priorities = 256

pub record PriorityBucketQueue : Type 0 where
  pub buckets : List (List TaskRef)
  pub bitmap : List ℕ
  pub len : ℕ

abbrev pub bucket : PriorityBucketQueue → ℕ → List TaskRef
bucket q p = get_or q.buckets p []

abbrev pub word : PriorityBucketQueue → ℕ → ℕ
word q i = get_or q.bitmap i 0

unfoldable pub new : PriorityBucketQueue
new = record { buckets = replicate num_priorities []; bitmap = replicate 4 0; len = 0 }

unfoldable pub push : PriorityBucketQueue → TaskRef → PriorityBucketQueue
push q task = record {
  buckets = set q.buckets p (bucket q p ++ task ∷ []);
  bitmap = set q.bitmap (p / 64) (bit_or (word q (p / 64)) (2 ^ (p % 64)));
  len = add_u64 q.len 1;
}
  where
    p : ℕ
    p = task.priority

-- `if self.buckets[p].is_empty() { self.bitmap[word_idx] &= !(1u64 << bit_idx); }`
unfoldable pub clear_if_empty : List ℕ → ℕ → ℕ → List TaskRef → List ℕ
clear_if_empty bitmap word_idx bit_idx [] =
    set bitmap word_idx (bit_and (get_or bitmap word_idx 0) (clear_mask 64 bit_idx))
clear_if_empty bitmap word_idx bit_idx (_ ∷ _) = bitmap

-- The body of the loop of `pop` once a word is not zero. `none` is the panic of `expect`.
unfoldable pub pop_bucket :
    PriorityBucketQueue → ℕ → ℕ → List TaskRef → Option (Option TaskRef × PriorityBucketQueue)
pop_bucket q word_idx bit_idx [] = none
pop_bucket q word_idx bit_idx (task ∷ rest) = some (
  some task,
  record {
    buckets = set q.buckets (word_idx * 64 + bit_idx) rest;
    bitmap = clear_if_empty q.bitmap word_idx bit_idx rest;
    len = sub_u64 q.len 1;
  },
)

-- `for word_idx in (0..4).rev()`: the words below `n` are still to be looked at.
unfoldable pub pop_from : ℕ → PriorityBucketQueue → Option (Option TaskRef × PriorityBucketQueue)
pop_from zero q = some (none, q)
pop_from (suc word_idx) q =
    let rest = pop_from word_idx q in
    let bit_idx = 63 - leading_zeros 64 (word q word_idx) in
    if word q word_idx == 0
    then rest
    else pop_bucket q word_idx bit_idx (bucket q (word_idx * 64 + bit_idx))

unfoldable pub pop : PriorityBucketQueue → Option (Option TaskRef × PriorityBucketQueue)
pop q = pop_from 4 q

unfoldable pub len : PriorityBucketQueue → ℕ
len q = q.len

unfoldable pub is_empty : PriorityBucketQueue → Bool
is_empty q = q.len == 0

unfoldable pub clear : PriorityBucketQueue → PriorityBucketQueue
clear q = record { buckets = map (λ b. []) q.buckets; bitmap = replicate 4 0; len = 0 }
