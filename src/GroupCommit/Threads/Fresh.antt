-- ===== src/GroupCommit/Threads/Fresh.antt =====
-- The fsync that a call of `sync` waits for begins behind the call.
use nesso.Base.{
  ℕ, ◌<◌, ◌≡◌, ◌≢◌, refl, Option, none, some, All, All-weaken, ◌==◌, arith, Bool-cases, inl, inr,
  ==_iff, sym, ap, ◌∙◌,
}
use nesso.Base.Maps.{lookup}
use nesso.Io.{Outcome}
use nesso.GroupCommit.{GroupCommitConfig, join, synced, set_force_flush}
use nesso.GroupCommit.Threads.{
  Pc, System, update, Step, Reach, arrive, commit, finish, follow, leave, flush, here, next,
}
use nesso.GroupCommit.Threads.Serial.{Reach-IsSerial, IsSerial, turn_commits, lookup-countdown}

-- The batch of a thread.
abbrev batch_of : Pc → Option ℕ
batch_of Pc.idle = none
batch_of (Pc.looping b) = some b
batch_of (Pc.syncing b) = some b
batch_of (Pc.returned b o) = some b

-- The fsync of a thread's batch had not begun when the thread called.
record IsFresh (s : System) : Type 0 where
  begun : All (λ d. d < s.state.collecting_batch_id) s.begun
  mine : (t b : ℕ) → batch_of (s.threads t) ≡ some b → All (λ d. d ≢ b) (s.seen t)

kept_batch :
    (threads : ℕ → Pc) (t : ℕ) (pc : Pc)
    → batch_of pc ≡ batch_of (threads t)
    → (u : ℕ) → batch_of (update threads t pc u) ≡ batch_of (threads u)
kept_batch threads t pc same u = elim (Bool-cases (t == u)) [
  | inl it ↦ rw it (same ∙ ap (λ (k : ℕ). batch_of (threads k)) ((==_iff t u).0 it))
  | inr other ↦ rw other refl
]

Step-IsFresh :
    {c : GroupCommitConfig} {s s' : System} → Step c s s' → IsSerial s → IsFresh s → IsFresh s'
unfolding join synced set_force_flush
Step-IsFresh {c} {s} (arrive t now e) v h = record {
  begun = h.begun;
  mine = λ u b f. elim (Bool-cases (t == u)) [
    | inl same ↦
        let joined : s.state.collecting_batch_id ≡ b = ground (arith, rw same at f) in
        rw same (
          All-weaken (λ (d : ℕ). d < s.state.collecting_batch_id) (λ (d : ℕ). d ≢ b)
            (λ d below here. omega (arith, joined)) s.begun h.begun)
    | inr other ↦ rw other (h.mine u b (rw other at f))
  ];
}
Step-IsFresh {c} {s} (commit t b now s' e f room) v h =
    let (free, mine, busy, last, more, kept) =
      turn_commits c s.state s' b now f room (ground (arith, v.gap)) in
    record {
      begun = (
        ground (arith, v.gap),
        All-weaken (λ (d : ℕ). d < s.state.collecting_batch_id)
            (λ (d : ℕ). d < s'.collecting_batch_id) (λ d below. omega (arith, more)) s.begun
            h.begun,
      );
      mine = λ u d g. h.mine u d (sym (kept_batch s.threads t (Pc.syncing b) (rw e refl) u) ∙ g);
    }
Step-IsFresh {c} {s} (finish t b res e) v h = record {
  begun = h.begun;
  mine = λ u d g. h.mine u d (sym (kept_batch s.threads t (Pc.returned b res) (rw e refl) u) ∙ g);
}
Step-IsFresh {c} {s} (follow t b now res e f) v h = record {
  begun = h.begun;
  mine = λ u d g. h.mine u d (sym (kept_batch s.threads t (Pc.returned b res) (rw e refl) u) ∙ g);
}
Step-IsFresh {c} {s} (leave t b res e) v h = record {
  begun = h.begun;
  mine = λ u d g. elim (Bool-cases (t == u)) [
    | inl same ↦ absurd (ground (arith, rw same at g))
    | inr other ↦ h.mine u d (rw other at g)
  ];
}
Step-IsFresh flush v h = record { begun = h.begun; mine = h.mine }

Reach-IsFresh : {c : GroupCommitConfig} {s : System} → Reach c s → IsFresh s
Reach-IsFresh here = record { begun = tt; mine = λ t b e. tt }
Reach-IsFresh (next r st) = Step-IsFresh st (Reach-IsSerial r) (Reach-IsFresh r)

-- When a thread has returned from `sync`, the fsync of its batch has ended, and it had not begun
-- when the thread called: it is not among those that had.
pub returned_after_fsync :
    {c : GroupCommitConfig} {s : System} (t b : ℕ) (o : Outcome)
    → Reach c s
    → s.threads t ≡ Pc.returned b o
    → ((res : Outcome) × (lookup b s.finished ≡ some res)) × All (λ d. d ≢ b) (s.seen t)
returned_after_fsync {s} t b o r e =
    let v = Reach-IsSerial r in
    let (p, q) = v.covered t b o e in
    (
      lookup-countdown s.state.last_synced_batch_id b s.finished v.in_order p q,
      (Reach-IsFresh r).mine t b (rw e refl),
    )
