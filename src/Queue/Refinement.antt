-- ===== src/Queue/Refinement.antt =====
-- `pop` against the order: it returns the first task, keeps the rest, and never panics.
use nesso.Base.{
  ℕ, zero, suc, ◌+◌, ◌-◌, ◌*◌, ◌/◌, ◌%◌, ◌^◌, ◌≤◌, ◌<◌, ◌≡◌, ◌≢◌, ◌⊎◌, inl, inr, refl, ap, sym, ◌∙◌,
  List, [], ◌∷◌, length, length-set, get_or, get_or-set_if, set, All, arith, Option, none, some,
  bit_and, ◌==◌, IsU8, Bool-cases, ==_iff,
}
use nesso.Base.Bits.{
  test_bit, test_bit-clear, test_bit-zero, leading_zeros, leading_zeros-le, leading_zeros-zeros,
  leading_zeros-one, leading_zeros-full, clear_mask, bit_and-lt,
}
use nesso.Task.{TaskRef}
use nesso.Queue.{
  PriorityBucketQueue, bucket, word, pop, pop_from, pop_bucket, clear_if_empty, num_priorities,
}
use nesso.Queue.Order.{drain-empty, drain-pop, Tagged-set, Tagged-get}
use nesso.Queue.Invariant.{IsValid, to_list, occupied, words_fit-set}

-- What a pop does to the order: nothing on an empty queue, else it splits off the first task.
abbrev pub Pops : PriorityBucketQueue → Option (Option TaskRef × PriorityBucketQueue) → Type 0
Pops q r =
    ((to_list q ≡ []) × (r ≡ some (none, q)))
    ⊎ ((t : TaskRef) × (q' : PriorityBucketQueue) × (to_list q ≡ t ∷ to_list q')
        × (r ≡ some (some t, q'))
        × IsValid q'
        × IsU8 t.priority)

-- Bucket `p` is the highest that holds a task.
record IsTop (q : PriorityBucketQueue) (p : ℕ) (t : TaskRef) (rest : List TaskRef) : Type 0 where
  position : p < num_priorities
  front : bucket q p ≡ t ∷ rest
  above : (j : ℕ) → p < j → j < num_priorities → bucket q j ≡ []

abbrev popped : PriorityBucketQueue → ℕ → ℕ → List TaskRef → PriorityBucketQueue
popped q w b rest = record {
  buckets = set q.buckets (w * 64 + b) rest;
  bitmap = clear_if_empty q.bitmap w b rest;
  len = (q.len + 2 ^ 64 - 1) % 2 ^ 64;
}

words_fit-clear :
    (q : PriorityBucketQueue) (w b : ℕ) (rest : List TaskRef) (i : ℕ)
    → IsValid q
    → get_or (clear_if_empty q.bitmap w b rest) i 0 < 2 ^ 64
unfolding clear_if_empty
words_fit-clear q w b [] i v =
    words_fit-set q.bitmap w i _ (v.words_fit i)
      (bit_and-lt 64 (word q w) (clear_mask 64 b) (v.words_fit w))
words_fit-clear q w b (_ ∷ _) i v = v.words_fit i

words_count-clear :
    (q : PriorityBucketQueue) (w b : ℕ) (rest : List TaskRef)
    → length (clear_if_empty q.bitmap w b rest) ≡ length q.bitmap
unfolding clear_if_empty
words_count-clear q w b [] = length-set q.bitmap w _
words_count-clear q w b (_ ∷ _) = refl

popped-bits :
    (q : PriorityBucketQueue) (w b : ℕ) (t : TaskRef) (rest : List TaskRef) (p : ℕ)
    → IsValid q
    → w < 4
    → b < 64
    → bucket q (w * 64 + b) ≡ t ∷ rest
    → p < num_priorities
    → test_bit (word (popped q w b rest) (p / 64)) (p % 64)
      ≡ occupied (bucket (popped q w b rest) p)
unfolding clear_if_empty
popped-bits q w b t [] p v hw hb e l = ground (
  arith,
  get_or-set_if q.bitmap w (p / 64) (bit_and (word q w) (clear_mask 64 b)) 0,
  get_or-set_if q.buckets (w * 64 + b) p [] [],
  test_bit-clear 64 (word q w) b (p % 64),
  v.bits p,
)
popped-bits q w b t (x ∷ rest) p v hw hb e l =
    ground (arith, get_or-set_if q.buckets (w * 64 + b) p (x ∷ rest) [], v.bits p l)

pop_bucket-Pops :
    (q : PriorityBucketQueue) (w b : ℕ) (t : TaskRef) (rest : List TaskRef)
    → IsValid q
    → w < 4
    → b < 64
    → IsTop q (w * 64 + b) t rest
    → Pops q (pop_bucket q w b (bucket q (w * 64 + b)))
unfolding pop_bucket
pop_bucket-Pops q w b t rest v hw hb top =
    inr (t, popped q w b rest, order, rw top.front, valid, omega (arith, mine.0))
  where
    mine : All (λ (x : TaskRef). x.priority ≡ 0 + (w * 64 + b)) (t ∷ rest)
    mine = rw top.front at (Tagged-get 0 q.buckets (w * 64 + b) v.tagged)

    order : to_list q ≡ t ∷ to_list (popped q w b rest)
    order =
        drain-pop q.buckets (w * 64 + b) t rest top.front
          (λ j a l. top.above j a (omega (arith, v.buckets_count)))

    valid : IsValid (popped q w b rest)
    valid = record {
      buckets_count = length-set q.buckets (w * 64 + b) rest ∙ v.buckets_count;
      words_count = words_count-clear q w b rest ∙ v.words_count;
      words_fit = λ i. words_fit-clear q w b rest i v;
      tagged = Tagged-set 0 q.buckets (w * 64 + b) rest v.tagged mine.1;
      bits = λ p l. popped-bits q w b t rest p v hw hb top.front l;
      counted = omega (arith, ap length order, v.counted, v.len_fits);
      len_fits = omega arith;
    }

occupied-one :
    (b : List TaskRef) → occupied b ≡ 1 → (t : TaskRef) × (rest : List TaskRef) × (b ≡ t ∷ rest)
occupied-one [] e = cc
occupied-one (t ∷ rest) e = (t, rest, refl)

occupied-zero : (b : List TaskRef) → occupied b ≡ 0 → b ≡ []
occupied-zero [] e = refl
occupied-zero (t ∷ rest) e = absurd (omega arith)

-- A zero word marks 64 empty buckets.
zero_word-empty :
    (q : PriorityBucketQueue) (j : ℕ)
    → IsValid q
    → j < num_priorities
    → word q (j / 64) ≡ 0
    → bucket q j ≡ []
zero_word-empty q j v l e =
    occupied-zero (bucket q j)
      (sym (v.bits j l) ∙ ap (λ (w : ℕ). test_bit w (j % 64)) e ∙ test_bit-zero (j % 64))

module _ (q : PriorityBucketQueue) (v : IsValid q) (w : ℕ) (small : w < 4)
    (nonzero : word q w ≢ 0) where
  some_bit : leading_zeros 64 (word q w) < 64
  some_bit = elim (Bool-cases (leading_zeros 64 (word q w) == 64)) [
    | inl e ↦
        absurd (nonzero (leading_zeros-full 64 (word q w) (v.words_fit w) ((==_iff _ 64).0 e)))
    | inr e ↦ ground (arith, leading_zeros-le 64 (word q w))
  ]

  top_bit : ℕ
  top_bit = 63 - leading_zeros 64 (word q w)

  -- The first one of the highest word that is not zero stands for the highest bucket.
  bucket-IsTop :
      ((i : ℕ) → w < i → i < 4 → word q i ≡ 0)
      → (t : TaskRef) × (rest : List TaskRef) × IsTop q (w * 64 + top_bit) t rest
  unfolding top_bit
  bucket-IsTop zeros =
      let (t, rest, e) = occupied-one (bucket q (w * 64 + top_bit)) full in
      (t, rest, record { position = omega (arith, some_bit); front = e; above = above })
    where
      full : occupied (bucket q (w * 64 + top_bit)) ≡ 1
      full =
          let high : (w * 64 + top_bit) / 64 ≡ w = omega (arith, some_bit) in
          let low : (w * 64 + top_bit) % 64 ≡ top_bit = omega (arith, some_bit) in
          sym (v.bits (w * 64 + top_bit) (omega (arith, some_bit)))
          ∙ rw (high, low) (leading_zeros-one 64 (word q w) top_bit (omega (arith, some_bit)))

      above : (j : ℕ) → w * 64 + top_bit < j → j < num_priorities → bucket q j ≡ []
      above j a l = elim (Bool-cases (j / 64 == w)) [
        | inl e ↦
            let here : j / 64 ≡ w = (==_iff _ w).0 e in
            occupied-zero (bucket q j) (
              sym (v.bits j l)
              ∙ rw here (
                  leading_zeros-zeros 64 (word q w) (j % 64) (omega arith)
                    (omega (arith, some_bit))))
        | inr e ↦ zero_word-empty q j v l (zeros (j / 64) (ground (arith, some_bit)) (omega arith))
      ]

pop_from-Pops :
    (n : ℕ) (q : PriorityBucketQueue)
    → IsValid q
    → n ≤ 4
    → ((i : ℕ) → n ≤ i → i < 4 → word q i ≡ 0)
    → Pops q (pop_from n q)
unfolding pop_from top_bit
pop_from-Pops zero q v h zeros = inl (
  drain-empty q.buckets (λ j l.
      zero_word-empty q j v (omega (arith, v.buckets_count))
        (zeros (j / 64) (omega arith) (omega (arith, v.buckets_count)))),
  refl,
)
pop_from-Pops (suc w) q v h zeros = elim (Bool-cases (word q w == 0)) [
  | inl e ↦ rw e (
      pop_from-Pops w q v (omega arith) (λ i a l. elim (Bool-cases (i == w)) [
        | inl s ↦ ap (word q) ((==_iff i w).0 s) ∙ (==_iff _ 0).0 e
        | inr s ↦ zeros i (ground arith) l
      ]))
  | inr e ↦
      let nonzero : word q w ≢ 0 = λ z. ground arith in
      let (t, rest, top) =
        bucket-IsTop q v w (omega arith) nonzero (λ i a l. zeros i (omega arith) l) in
      rw e (
        pop_bucket-Pops q w (63 - leading_zeros 64 (word q w)) t rest v (omega arith) (omega arith)
          top)
]

-- On a valid queue `pop` does not panic. It returns nothing exactly when no task is stored, and
-- otherwise the first task of the order; the rest stays, in order, in a valid queue.
pub pop-Pops : (q : PriorityBucketQueue) → IsValid q → Pops q (pop q)
unfolding pop
pop-Pops q v = pop_from-Pops 4 q v (omega arith) (λ i a l. absurd (omega arith))
