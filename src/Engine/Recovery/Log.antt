-- ===== src/Engine/Recovery/Log.antt =====
-- storage/engine.rs, `recover`: what a log says of the tasks, without the maps of the engine. The
-- records that count are the last ones of each task, in the order of the log.
use nesso.Base.{
  ℕ, ◌≡◌, refl, Bool, true, false, Option, none, some, List, [], ◌∷◌, ◌++◌, All, All-append, length,
  get_or, leb, ltb, if◌then◌else◌, arith, ◌≢◌, sym, ap, ◌∙◌, ◌==◌, ◌&&◌, ◌≤◌, ◌+◌, length-append,
  All-zip, ==_refl,
}
use nesso.Base.Bytes.{from_be_bytes, slice}
use nesso.Base.Keys.{DistinctKeys, remove-All, remove-absent, remove-DistinctKeys}
use nesso.Base.Maps.{Map, lookup, remove, length-remove-le}
use nesso.Queue.Order.{insert_task}
use nesso.Record.{Record, OpType}
use nesso.Task.{TaskRef, LeaseInfo}
use nesso.Engine.{Loc}
use nesso.Engine.Recovery.Order.{Before}

-- The last record of each task with its place, the task of the last record last.
abbrev pub Latest : Type 0
Latest = Map (Loc × Record)

abbrev pub loc_of : ℕ × ℕ × Record → Loc
loc_of (segment_id, offset, r) = (segment_id, offset)

unfoldable pub move_last : Latest → ℕ × ℕ × Record → Latest
move_last l (segment_id, offset, r) = remove r.id l ++ (r.id, ((segment_id, offset), r)) ∷ []

unfoldable pub latest_from : Latest → List (ℕ × ℕ × Record) → Latest
latest_from l [] = l
latest_from l (x ∷ xs) = latest_from (move_last l x) xs

abbrev pub latest : List (ℕ × ℕ × Record) → Latest
latest log = latest_from [] log

-- Places grow along the log.
abbrev pub IsAscending : List (ℕ × ℕ × Record) → Type 0
IsAscending [] = Unit {0}
IsAscending (x ∷ xs) = All (λ y. Before (loc_of x) (loc_of y)) xs × IsAscending xs

-- What the last record of a task says of it.
pub data Fate : Type 0 where
  ready : (retries : ℕ) → Fate
  held : LeaseInfo → Fate
  over : Fate

abbrev lease_fate : (now : ℕ) → Record → LeaseInfo → Fate
lease_fate now r lease =
    if ltb now lease.expire_timestamp then Fate.held lease else Fate.ready lease.retries

-- A lease record holds consumer, expiry and retries; if it is too short, the lease is ignored.
abbrev pub logged_lease : Record → LeaseInfo
logged_lease r = record {
  consumer_id = from_be_bytes (slice 0 4 r.payload);
  expire_timestamp = from_be_bytes (slice 4 12 r.payload);
  retries = get_or r.payload 12 0;
  priority = r.priority;
}

abbrev pub fate_op : OpType → (now : ℕ) → Record → Fate
fate_op OpType.created now r = Fate.ready 0
fate_op OpType.nacked now r = Fate.ready (get_or r.payload 0 0)
fate_op OpType.expired now r = Fate.ready (get_or r.payload 0 0)
fate_op OpType.leased now r =
    if leb 13 (length r.payload) then lease_fate now r (logged_lease r) else Fate.ready 0
fate_op OpType.acked now r = Fate.over
fate_op OpType.dead_lettered now r = Fate.over

abbrev pub fate : (now : ℕ) → Record → Fate
fate now r = fate_op r.op_type now r

abbrev pub lease_in : Fate → Option LeaseInfo
lease_in (Fate.ready n) = none
lease_in (Fate.held lease) = some lease
lease_in Fate.over = none

abbrev pub is_live : Fate → Bool
is_live (Fate.ready n) = true
is_live (Fate.held lease) = true
is_live Fate.over = false

abbrev pub enlist : ℕ → Record → Fate → List TaskRef → List TaskRef
enlist id r (Fate.ready n) ts = record { id = id; priority = r.priority; retries = n } ∷ ts
enlist id r (Fate.held lease) ts = ts
enlist id r Fate.over ts = ts

-- The tasks that are ready, in the order of their last records.
unfoldable pub ready_in : (now : ℕ) → Latest → List TaskRef
ready_in now [] = []
ready_in now ((id, (loc, r)) ∷ l) = enlist id r (fate now r) (ready_in now l)

-- Tasks that arrive one behind the other, in the order in which the queue serves them.
unfoldable pub arrive : List TaskRef → List TaskRef → List TaskRef
arrive served [] = served
arrive served (t ∷ ts) = arrive (insert_task t served) ts

abbrev pub at_task : {A : Type 0} → A → (Loc → Record → A) → Option (Loc × Record) → A
at_task nothing f none = nothing
at_task nothing f (some (loc, r)) = f loc r

abbrev pub of_task : {A : Type 0} → A → (Record → A) → Option (Loc × Record) → A
of_task nothing f found = at_task nothing (λ loc r. f r) found

abbrev pub or_else : Option Loc → Option Loc → Option Loc
or_else none other = other
or_else (some loc) other = some loc

abbrev pub creates : OpType → Bool
creates OpType.created = true
creates _ = false

-- The place of a record, if it creates the task.
abbrev pub created_at : ℕ → ℕ × ℕ × Record → Option Loc
created_at id (segment_id, offset, r) =
    if r.id == id && creates r.op_type then some (segment_id, offset) else none

-- The place of the last record that creates the task.
abbrev pub last_created : ℕ → List (ℕ × ℕ × Record) → Option Loc
last_created id [] = none
last_created id (x ∷ xs) = or_else (last_created id xs) (created_at id x)

pub last_created-snoc :
    (id : ℕ) (log : List (ℕ × ℕ × Record)) (x : ℕ × ℕ × Record)
    → last_created id (log ++ x ∷ []) ≡ or_else (created_at id x) (last_created id log)
last_created-snoc id [] x = or_else-none (created_at id x)
  where
    or_else-none : (o : Option Loc) → o ≡ or_else o none
    or_else-none none = refl
    or_else-none (some loc) = refl
last_created-snoc id (y ∷ log) x =
    ap (λ (o : Option Loc). or_else o (created_at id y)) (last_created-snoc id log x)
    ∙ or_else-assoc (created_at id x) (last_created id log) (created_at id y)
  where
    or_else-assoc : (a b c : Option Loc) → or_else (or_else a b) c ≡ or_else a (or_else b c)
    or_else-assoc none b c = refl
    or_else-assoc (some loc) b c = refl

-- The place that a payload has: that of the last creation in the log and, if there is none, as
-- after compaction, that of the last record; a task that is over has none.
abbrev pub payload_place : (now : ℕ) → List (ℕ × ℕ × Record) → ℕ → Option Loc
payload_place now log id =
    at_task none
      (λ loc r. if is_live (fate now r) then or_else (last_created id log) (some loc) else none)
      (lookup id (latest log))

abbrev pub place_of : (now : ℕ) → Option (Loc × Record) → Option Loc
place_of now none = none
place_of now (some (loc, r)) = if is_live (fate now r) then some loc else none

-- A property of the log is one of the last records.
abbrev entry_of : ℕ × ℕ × Record → ℕ × (Loc × Record)
entry_of (segment_id, offset, r) = (r.id, ((segment_id, offset), r))

pub latest_from-All {κ} :
    (P : ℕ × (Loc × Record) → Type κ) (l : Latest) (log : List (ℕ × ℕ × Record))
    → All P l
    → All (λ x. P (entry_of x)) log
    → All P (latest_from l log)
unfolding latest_from move_last
latest_from-All P l [] h k = h
latest_from-All P l ((seg, off, r) ∷ log) h k =
    latest_from-All P (move_last l (seg, off, r)) log
      (All-append P (remove r.id l) ((r.id, ((seg, off), r)) ∷ []) (remove-All P r.id l h)
        (k.0, tt))
      k.1

snoc-DistinctKeys :
    (l : Latest) (k : ℕ) (v : Loc × Record)
    → All (λ e. e.0 ≢ k) l
    → DistinctKeys l
    → DistinctKeys (l ++ (k, v) ∷ [])
snoc-DistinctKeys [] k v h d = (tt, tt)
snoc-DistinctKeys ((j, w) ∷ l) k v h d = (
  All-append (λ (e : ℕ × (Loc × Record)). e.0 ≢ j) l ((k, v) ∷ []) d.0 ((λ e. h.0 (sym e)), tt),
  snoc-DistinctKeys l k v h.1 d.1,
)

pub latest_from-DistinctKeys :
    (l : Latest) (log : List (ℕ × ℕ × Record)) → DistinctKeys l → DistinctKeys (latest_from l log)
unfolding latest_from move_last
latest_from-DistinctKeys l [] d = d
latest_from-DistinctKeys l ((seg, off, r) ∷ log) d =
    latest_from-DistinctKeys (move_last l (seg, off, r)) log (
      snoc-DistinctKeys (remove r.id l) r.id ((seg, off), r) (remove-absent r.id l)
        (remove-DistinctKeys r.id l d))

pub latest_from-length :
    (l : Latest) (log : List (ℕ × ℕ × Record)) → length (latest_from l log) ≤ length l + length log
unfolding latest_from move_last
latest_from-length l [] = omega arith
latest_from-length l ((seg, off, r) ∷ log) = omega (
  arith,
  latest_from-length (move_last l (seg, off, r)) log,
  length-append (remove r.id l) ((r.id, ((seg, off), r)) ∷ []),
  length-remove-le r.id l,
)

pub latest_from-append :
    (l : Latest) (log : List (ℕ × ℕ × Record)) (x : ℕ × ℕ × Record)
    → latest_from l (log ++ x ∷ []) ≡ move_last (latest_from l log) x
unfolding latest_from
latest_from-append l [] x = refl
latest_from-append l (y ∷ log) x = latest_from-append (move_last l y) log x

-- What a map lists it finds.
pub lookup-entries : (l : Latest) → DistinctKeys l → All (λ e. lookup e.0 l ≡ some e.1) l
unfolding lookup
lookup-entries [] d = tt
lookup-entries ((id, x) ∷ l) d = (
  rw (==_refl id),
  All-zip (λ (e : ℕ × (Loc × Record)). e.0 ≢ id)
      (λ (e : ℕ × (Loc × Record)). lookup e.0 l ≡ some e.1) _
      (λ e ne found. ground (arith, ne, found)) l d.0 (lookup-entries l d.1),
)
