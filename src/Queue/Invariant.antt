-- ===== src/Queue/Invariant.antt =====
-- The bitmap marks exactly the buckets that hold a task, and each bucket holds its own priority.
use nesso.Base.{
  ℕ, zero, suc, ◌+◌, ◌/◌, ◌%◌, ◌^◌, ◌<◌, ◌≡◌, refl, ap, sym, ◌∙◌, List, [], ◌∷◌, ◌++◌, length,
  length-set, length-replicate, get_or, get_or-set_if, set, replicate, All-append, arith, bit_or,
  IsU8, IsU64,
}
use nesso.Base.Bits.{test_bit, test_bit-set, test_bit-zero, bit_or-lt, two-pow-lt}
use nesso.Task.{TaskRef}
use nesso.Queue.{PriorityBucketQueue, bucket, word, new, push, num_priorities}
use nesso.Queue.Order.{
  drain, Tagged, Tagged-set, Tagged-get, insert_task, drain-push, length-insert_task,
}

-- 1 for a bucket that holds a task.
abbrev pub occupied : List TaskRef → ℕ
occupied [] = 0
occupied (_ ∷ _) = 1

-- The tasks in the order in which `pop` returns them.
abbrev pub to_list : PriorityBucketQueue → List TaskRef
to_list q = drain q.buckets

pub record IsValid (q : PriorityBucketQueue) : Type 0 where
  pub buckets_count : length q.buckets ≡ num_priorities
  pub words_count : length q.bitmap ≡ 4
  pub words_fit : (i : ℕ) → word q i < 2 ^ 64
  pub tagged : Tagged 0 q.buckets
  pub bits :
      (p : ℕ) → p < num_priorities → test_bit (word q (p / 64)) (p % 64) ≡ occupied (bucket q p)
  pub counted : q.len ≡ length (to_list q)
  pub len_fits : IsU64 q.len

get_or-replicate {ℓ} : {A : Type ℓ} (n i : ℕ) (d : A) → get_or (replicate n d) i d ≡ d
get_or-replicate zero i d = refl
get_or-replicate (suc n) zero d = refl
get_or-replicate (suc n) (suc i) d = get_or-replicate n i d

Tagged-replicate : (base n : ℕ) → Tagged base (replicate n [])
Tagged-replicate base zero = tt
Tagged-replicate base (suc n) = (tt, Tagged-replicate (suc base) n)

drain-replicate : (n : ℕ) → drain (replicate n []) ≡ []
drain-replicate zero = refl
drain-replicate (suc n) = rw (drain-replicate n)

pub new-IsValid : IsValid new
unfolding new
new-IsValid = record {
  buckets_count = length-replicate {A = List TaskRef} 256 [];
  words_count = refl;
  words_fit = λ i. rw (get_or-replicate {A = ℕ} 4 i 0) (omega arith);
  tagged = Tagged-replicate 0 256;
  bits = λ p h. rw (
    get_or-replicate {A = ℕ} 4 (p / 64) 0,
    get_or-replicate {A = List TaskRef} 256 p [],
    test_bit-zero (p % 64),
  );
  counted = sym (ap length (drain-replicate 256));
  len_fits = omega arith;
}

-- Writing one word: the others stay, and all still fit.
pub words_fit-set :
    (bitmap : List ℕ) (i j v : ℕ)
    → get_or bitmap j 0 < 2 ^ 64
    → v < 2 ^ 64
    → get_or (set bitmap i v) j 0 < 2 ^ 64
words_fit-set [] i j v h k = omega arith
words_fit-set (w ∷ ws) zero zero v h k = k
words_fit-set (w ∷ ws) zero (suc j) v h k = h
words_fit-set (w ∷ ws) (suc i) zero v h k = h
words_fit-set (w ∷ ws) (suc i) (suc j) v h k = words_fit-set ws i j v h k

occupied-append : (b : List TaskRef) (t : TaskRef) → occupied (b ++ t ∷ []) ≡ 1
occupied-append [] t = refl
occupied-append (x ∷ b) t = refl

-- Where two priorities meet in the bitmap.
same_position : (p j : ℕ) → p / 64 ≡ j / 64 → p % 64 ≡ j % 64 → p ≡ j
same_position p j h k = omega arith

push-bits :
    (q : PriorityBucketQueue) (t : TaskRef) (p : ℕ)
    → IsValid q
    → IsU8 t.priority
    → p < num_priorities
    → test_bit (word (push q t) (p / 64)) (p % 64) ≡ occupied (bucket (push q t) p)
unfolding push
push-bits q t p v h l = ground (
  arith,
  get_or-set_if q.bitmap (t.priority / 64) (p / 64)
      (bit_or (word q (t.priority / 64)) (2 ^ (t.priority % 64))) 0,
  get_or-set_if q.buckets t.priority p (bucket q t.priority ++ t ∷ []) [],
  test_bit-set (word q (t.priority / 64)) (t.priority % 64) (p % 64),
  occupied-append (bucket q t.priority) t,
  v.bits p,
)

-- On a valid queue, a push of a u8 priority inserts the task into the order.
pub push-to_list :
    (q : PriorityBucketQueue) (t : TaskRef)
    → IsValid q
    → IsU8 t.priority
    → to_list (push q t) ≡ insert_task t (to_list q)
unfolding push
push-to_list q t v h = drain-push 0 q.buckets t.priority t v.tagged (omega arith) (omega arith)

pub push-IsValid :
    (q : PriorityBucketQueue) (t : TaskRef)
    → IsValid q
    → IsU8 t.priority
    → q.len + 1 < 2 ^ 64
    → IsValid (push q t)
unfolding push
push-IsValid q t v h l = record {
  buckets_count = length-set q.buckets t.priority _ ∙ v.buckets_count;
  words_count = length-set q.bitmap (t.priority / 64) _ ∙ v.words_count;
  words_fit = λ i. words_fit-set q.bitmap (t.priority / 64) i _ (v.words_fit i) (
      bit_or-lt 64 _ _ (v.words_fit (t.priority / 64))
        (two-pow-lt (t.priority % 64) 64 (omega arith)));
  tagged = Tagged-set 0 q.buckets t.priority _ v.tagged (
      All-append (λ (x : TaskRef). x.priority ≡ 0 + t.priority) (bucket q t.priority) (t ∷ [])
        (Tagged-get 0 q.buckets t.priority v.tagged) (omega arith, tt));
  bits = λ p k. push-bits q t p v h k;
  counted = omega (arith, ap length (push-to_list q t v h), length-insert_task t (to_list q));
  len_fits = omega arith;
}
