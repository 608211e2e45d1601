-- ===== src/Queue/Order.antt =====
-- The order in which a bucket queue serves: highest priority first, and first in first out within
-- a priority. `insert_task` is that order on a plain list.
use nesso.Base.{
  ℕ, zero, suc, ◌+◌, ◌≤◌, ◌<◌, ◌≡◌, refl, ap, sym, ◌∙◌, List, [], ◌∷◌, ◌++◌, append-nil, length,
  get_or, set, All, All-append, All-weaken, ltb, if◌then◌else◌, arith, ltb_refused, lt→ltb,
}
use nesso.Task.{TaskRef}

-- A task goes behind all those of at least its own priority.
unfoldable pub insert_task : TaskRef → List TaskRef → List TaskRef
insert_task t [] = t ∷ []
insert_task t (x ∷ xs) = if ltb x.priority t.priority then t ∷ x ∷ xs else x ∷ insert_task t xs

-- The buckets from the last to the first, one behind the other.
abbrev pub drain : List (List TaskRef) → List TaskRef
drain [] = []
drain (b ∷ bs) = drain bs ++ b

-- Bucket `i` holds tasks of priority `base + i` only.
abbrev pub Tagged : ℕ → List (List TaskRef) → Type 0
Tagged base [] = Unit {0}
Tagged base (b ∷ bs) = All (λ t. t.priority ≡ base) b × Tagged (suc base) bs

insert_task-behind :
    (t : TaskRef) (xs ys : List TaskRef)
    → All (λ x. t.priority ≤ x.priority) xs
    → insert_task t (xs ++ ys) ≡ xs ++ insert_task t ys
unfolding insert_task
insert_task-behind t [] ys h = refl
insert_task-behind t (x ∷ xs) ys (hx, h) =
    rw (ltb_refused x.priority t.priority hx) (ap (◌∷◌ x) (insert_task-behind t xs ys h))

insert_task-before :
    (t : TaskRef) (xs ys : List TaskRef)
    → All (λ y. y.priority < t.priority) ys
    → insert_task t (xs ++ ys) ≡ insert_task t xs ++ ys
unfolding insert_task
insert_task-before t [] [] h = refl
insert_task-before t [] (y ∷ ys) (hy, h) = rw (lt→ltb y.priority t.priority hy)
insert_task-before t (x ∷ xs) ys h = ground (arith, insert_task-before t xs ys h)

drain-above :
    (base : ℕ) (bs : List (List TaskRef)) → Tagged base bs → All (λ t. base ≤ t.priority) (drain bs)
drain-above base [] h = tt
drain-above base (b ∷ bs) (hb, h) =
    All-append (λ (t : TaskRef). base ≤ t.priority) (drain bs) b
      (All-weaken (λ (t : TaskRef). suc base ≤ t.priority) _ (λ t p. omega arith) (drain bs)
        (drain-above (suc base) bs h))
      (All-weaken (λ (t : TaskRef). t.priority ≡ base) _ (λ t p. omega arith) b hb)

-- To append to the bucket of the task's priority is to insert into the order.
pub drain-push :
    (base : ℕ) (bs : List (List TaskRef)) (p : ℕ) (t : TaskRef)
    → Tagged base bs
    → p < length bs
    → t.priority ≡ base + p
    → drain (set bs p (get_or bs p [] ++ t ∷ [])) ≡ insert_task t (drain bs)
drain-push base [] p t h l e = elim l [ ]
drain-push base (b ∷ bs) zero t (hb, h) l e = sym (
    insert_task-behind t (drain bs) b (
      All-weaken (λ (x : TaskRef). suc base ≤ x.priority) _ (λ x p. omega arith) (drain bs)
        (drain-above (suc base) bs h))
    ∙ ap (λ l. drain bs ++ insert_task t l) (sym (append-nil b))
    ∙ ap (◌++◌ (drain bs)) (
        insert_task-behind t b []
          (All-weaken (λ (x : TaskRef). x.priority ≡ base) _ (λ x p. omega arith) b hb)
        ∙ unfold insert_task in refl))
drain-push base (b ∷ bs) (suc p) t (hb, h) l e =
    ap (λ d. d ++ b) (drain-push (suc base) bs p t h (omega arith) (omega arith))
    ∙ sym (
        insert_task-before t (drain bs) b
          (All-weaken (λ (x : TaskRef). x.priority ≡ base) _ (λ x p. omega arith) b hb))

pub drain-empty :
    (bs : List (List TaskRef)) → ((j : ℕ) → j < length bs → get_or bs j [] ≡ []) → drain bs ≡ []
drain-empty [] h = refl
drain-empty (b ∷ bs) h = rw (drain-empty bs (λ j l. h (suc j) (omega arith))) (h 0 (omega arith))

-- The front of the highest bucket that is not empty is the first task in the order.
pub drain-pop :
    (bs : List (List TaskRef)) (p : ℕ) (t : TaskRef) (rest : List TaskRef)
    → get_or bs p [] ≡ t ∷ rest
    → ((j : ℕ) → p < j → j < length bs → get_or bs j [] ≡ [])
    → drain bs ≡ t ∷ drain (set bs p rest)
drain-pop [] p t rest e h = cc
drain-pop (b ∷ bs) zero t rest e h =
    let above = drain-empty bs (λ j l. h (suc j) (omega arith) (omega arith)) in rw (above, e)
drain-pop (b ∷ bs) (suc p) t rest e h =
    ap (λ d. d ++ b) (drain-pop bs p t rest e (λ j a l. h (suc j) (omega arith) (omega arith)))

pub length-insert_task :
    (t : TaskRef) (l : List TaskRef) → length (insert_task t l) ≡ suc (length l)
unfolding insert_task
length-insert_task t [] = refl
length-insert_task t (x ∷ xs) = ground (arith, length-insert_task t xs)

pub Tagged-set :
    (base : ℕ) (bs : List (List TaskRef)) (p : ℕ) (b : List TaskRef)
    → Tagged base bs
    → All (λ t. t.priority ≡ base + p) b
    → Tagged base (set bs p b)
Tagged-set base [] p b h k = tt
Tagged-set base (c ∷ bs) zero b (hc, h) k =
    (All-weaken (λ (t : TaskRef). t.priority ≡ base + zero) _ (λ t p. omega arith) b k, h)
Tagged-set base (c ∷ bs) (suc p) b (hc, h) k = (
  hc,
  Tagged-set (suc base) bs p b h
      (All-weaken (λ (t : TaskRef). t.priority ≡ base + suc p) _ (λ t q. omega arith) b k),
)

pub Tagged-get :
    (base : ℕ) (bs : List (List TaskRef)) (p : ℕ)
    → Tagged base bs
    → All (λ t. t.priority ≡ base + p) (get_or bs p [])
Tagged-get base [] p h = tt
Tagged-get base (b ∷ bs) zero (hb, h) =
    All-weaken (λ (t : TaskRef). t.priority ≡ base) _ (λ t p. omega arith) b hb
Tagged-get base (b ∷ bs) (suc p) (hb, h) =
    All-weaken (λ (t : TaskRef). t.priority ≡ suc base + p) _ (λ t q. omega arith) (get_or bs p [])
      (Tagged-get (suc base) bs p h)
