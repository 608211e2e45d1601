-- ===== src/GroupCommit/Threads/Serial.antt =====
-- One fsync at a time, one for each batch, in the order of the batches.
use nesso.Base.{
  ℕ, zero, suc, ◌+◌, ◌^◌, ◌≤◌, ◌<◌, ◌≡◌, refl, Bool, true, false, List, [], ◌∷◌, map, ◌==◌, arith,
  Bool-cases, ==_refl, inl, inr, ap, some,
}
use nesso.Base.Maps.{lookup}
use nesso.Io.{Outcome}
use nesso.GroupCommit.{
  GroupCommitConfig, GroupCommitState, Turn, new, join, turn, synced, set_force_flush,
}
use nesso.GroupCommit.Threads.{
  Pc, System, Step, Reach, start, arrive, commit, finish, follow, leave, flush, here, next,
}

-- n, n - 1, …, 1
abbrev pub countdown : ℕ → List ℕ
countdown zero = []
countdown (suc n) = suc n ∷ countdown n

-- How far the collecting batch is ahead of the last one synced.
abbrev pub lead : Bool → ℕ
lead true = 2
lead false = 1

pub record IsSerial (s : System) : Type 0 where
  pub gap :
      s.state.collecting_batch_id ≡ s.state.last_synced_batch_id + lead s.state.fsync_in_progress
  pub no_wrap : s.state.collecting_batch_id < 2 ^ 64
  pub committer :
      (t b : ℕ)
      → s.threads t ≡ Pc.syncing b
      → (s.state.fsync_in_progress ≡ true) × (b ≡ s.state.last_synced_batch_id + 1)
  pub alone : (t u b d : ℕ) → s.threads t ≡ Pc.syncing b → s.threads u ≡ Pc.syncing d → t ≡ u
  pub waiting : (t b : ℕ) → s.threads t ≡ Pc.looping b → (0 < b) × (b ≤ s.state.collecting_batch_id)
  pub covered :
      (t b : ℕ) (o : Outcome)
      → s.threads t ≡ Pc.returned b o
      → (0 < b) × (b ≤ s.state.last_synced_batch_id)
  pub in_order : map (λ e. e.0) s.finished ≡ countdown s.state.last_synced_batch_id
  pub latest :
      0 < s.state.last_synced_batch_id
      → lookup s.state.last_synced_batch_id s.finished ≡ some s.state.last_error

lookup-head : (b : ℕ) (o : Outcome) (l : List (ℕ × Outcome)) → lookup b ((b, o) ∷ l) ≡ some o
unfolding lookup
lookup-head b o l = rw (==_refl b)

start-IsSerial : IsSerial start
unfolding new
start-IsSerial = record {
  gap = omega arith;
  no_wrap = omega arith;
  committer = λ t b e. cc;
  alone = λ t u b d e f. cc;
  waiting = λ t b e. cc;
  covered = λ t b o e. cc;
  in_order = refl;
  latest = λ p. absurd (omega arith);
}

-- A turn commits only when no fsync runs, and for the batch behind the last one synced.
pub turn_commits :
    (c : GroupCommitConfig) (s s' : GroupCommitState) (b now : ℕ)
    → turn c s b now ≡ Turn.commits s'
    → s.collecting_batch_id + 1 < 2 ^ 64
    → s.last_synced_batch_id + 1 < 2 ^ 64
    → (s.fsync_in_progress ≡ false)
      × (b ≡ s.last_synced_batch_id + 1)
      × (s'.fsync_in_progress ≡ true)
      × (s'.last_synced_batch_id ≡ s.last_synced_batch_id)
      × (s'.collecting_batch_id ≡ s.collecting_batch_id + 1)
      × (s'.last_error ≡ s.last_error)
unfolding turn
turn_commits c s s' b now e h l = ground arith

turn_returns :
    (c : GroupCommitConfig) (s : GroupCommitState) (b now : ℕ) (o : Outcome)
    → turn c s b now ≡ Turn.returns o
    → (b ≤ s.last_synced_batch_id) × (o ≡ s.last_error)
unfolding turn
turn_returns c s b now o e = ground arith

Step-IsSerial : {c : GroupCommitConfig} {s s' : System} → Step c s s' → IsSerial s → IsSerial s'
unfolding join synced set_force_flush
Step-IsSerial {s} (arrive t now e) v = record {
  gap = v.gap;
  no_wrap = v.no_wrap;
  committer = λ u b f. ground (arith, v.committer u b);
  alone = λ u w b d f g. ground (arith, v.alone u w b d);
  waiting = λ u b f. ground (arith, v.waiting u b);
  covered = λ u b o f. ground (arith, v.covered u b o);
  in_order = v.in_order;
  latest = v.latest;
}
Step-IsSerial {c} {s} (commit t b now s' e f room) v =
    let (free, mine, busy, last, more, kept) =
      turn_commits c s.state s' b now f room (ground (arith, v.gap)) in
    record {
      gap = ground (arith, v.gap);
      no_wrap = omega arith;
      committer = λ u d g. ground (arith, v.committer u d);
      alone = λ u w d d' g h. ground (arith, v.committer u d, v.committer w d');
      waiting = λ u d g. ground (arith, v.waiting u d);
      covered = λ u d o g. ground (arith, v.covered u d o);
      in_order = rw last v.in_order;
      latest = rw (last, kept) v.latest;
    }
Step-IsSerial {s} (finish t b res e) v =
    let (busy, mine) = v.committer t b e in
    let mine' : b ≡ suc s.state.last_synced_batch_id = omega (arith, mine) in
    record {
      gap = ground (arith, v.gap);
      no_wrap = v.no_wrap;
      committer = λ u d g. ground (arith, v.alone t u b d e, v.committer u d);
      alone = λ u w d d' g h. ground (arith, v.alone u w d d');
      waiting = λ u d g. ground (arith, v.waiting u d);
      covered = λ u d o g. ground (arith, v.covered u d o);
      in_order = rw mine' (ap (◌∷◌ (suc s.state.last_synced_batch_id)) v.in_order);
      latest = λ p. lookup-head b res s.finished;
    }
Step-IsSerial {c} {s} (follow t b now res e f) v =
    let (done, _) = turn_returns c s.state b now res f in
    record {
      gap = v.gap;
      no_wrap = v.no_wrap;
      committer = λ u d g. ground (arith, v.committer u d);
      alone = λ u w d d' g h. ground (arith, v.alone u w d d');
      waiting = λ u d g. ground (arith, v.waiting u d);
      covered = λ u d o g. ground (arith, v.covered u d o, v.waiting t b e);
      in_order = v.in_order;
      latest = v.latest;
    }
Step-IsSerial {s} (leave t b res e) v = record {
  gap = v.gap;
  no_wrap = v.no_wrap;
  committer = λ u d g. ground (arith, v.committer u d);
  alone = λ u w d d' g h. ground (arith, v.alone u w d d');
  waiting = λ u d g. ground (arith, v.waiting u d);
  covered = λ u d o g. ground (arith, v.covered u d o);
  in_order = v.in_order;
  latest = v.latest;
}
Step-IsSerial flush v = record {
  gap = v.gap;
  no_wrap = v.no_wrap;
  committer = v.committer;
  alone = v.alone;
  waiting = v.waiting;
  covered = v.covered;
  in_order = v.in_order;
  latest = v.latest;
}

-- In any run: one fsync at a time, by the batch behind the last one synced; the batches synced so
-- far are 1 up to the last one, each once and in that order; a thread waits on a batch that is
-- still to be synced or was, and has returned only from one that was.
pub Reach-IsSerial : {c : GroupCommitConfig} {s : System} → Reach c s → IsSerial s
Reach-IsSerial here = start-IsSerial
Reach-IsSerial (next r st) = Step-IsSerial st (Reach-IsSerial r)

pub lookup-countdown :
    (n b : ℕ) (l : List (ℕ × Outcome))
    → map (λ e. e.0) l ≡ countdown n
    → 0 < b
    → b ≤ n
    → (o : Outcome) × (lookup b l ≡ some o)
unfolding lookup
lookup-countdown zero b l e p q = absurd (omega arith)
lookup-countdown (suc n) b [] e p q = cc
lookup-countdown (suc n) b ((d, o) ∷ l) e p q =
    let head : d ≡ suc n = ground arith in
    let tail : map (λ e. e.0) l ≡ countdown n = ground arith in
    elim (Bool-cases (d == b)) [
      | inl same ↦ (o, rw same)
      | inr other ↦
          let (o', found) = lookup-countdown n b l tail p (ground arith) in (o', rw other found)
    ]

-- A thread that finds its own batch to be the last one synced is answered with what its fsync
-- returned.
pub turn_own_batch :
    {c : GroupCommitConfig} {s : System} (t b now : ℕ) (res : Outcome)
    → Reach c s
    → s.threads t ≡ Pc.looping b
    → turn c s.state b now ≡ Turn.returns res
    → s.state.last_synced_batch_id ≡ b
    → lookup b s.finished ≡ some res
turn_own_batch {c} {s} t b now res r e f own =
    let v = Reach-IsSerial r in
    let (p, _) = v.waiting t b e in
    let (_, answer) = turn_returns c s.state b now res f in
    rw (answer, ← own) (v.latest (omega arith))
