-- ===== src/Server/Waiting.antt =====
-- server.rs, `pop_handler`: how long the loop goes on.
use Prim.Native.String.{String}
use nesso.Base.{
  ℕ, ◌<◌, ◌≡◌, ◌≢◌, ◌⊎◌, ◌||◌, not, refl, Bool, true, false, Option, none, some, List, [], ◌∷◌, All,
  leb, arith, Bool-cases, inl, inr, if◌then◌else◌,
}
use nesso.Io.{Result, ok, err, Outcome}
use nesso.Record.{Record}
use nesso.Wal.{AppendIo}
use nesso.Engine.{Engine}
use nesso.Engine.Fallback.{pop_and_lease}
use nesso.Server.{AppState}
use nesso.Server.Poll.{PollTurn, Wakeup, PopReply, pop_done, pop_turn, pop_loop, held, behind_turn}

-- There is a deadline, and it has not come at the instant.
pub record IsEarly (deadline : Option ℕ) (instant : ℕ) : Type 0 where
  pub until : ℕ
  pub has_deadline : deadline ≡ some until
  pub before : instant < until

abbrev is_notified : Wakeup → Bool
is_notified Wakeup.notified = true
is_notified _ = false

-- A turn that must be the last.
abbrev is_last : Option ℕ → PollTurn → Bool
is_last none t = true
is_last (some deadline) t = leb deadline t.instant || not (is_notified t.wakeup)

abbrev pub ends_by : Option ℕ → List PollTurn → Bool
ends_by deadline [] = false
ends_by deadline (t ∷ ts) = is_last deadline t || ends_by deadline ts

-- An answer, or a panic, and no wait.
abbrev pub IsAnswer : Option (Option PopReply × AppState) → Type 0
IsAnswer r = (r ≡ none) ⊎ ((reply : PopReply) × ((s : AppState) × (r ≡ some (some reply, s))))

answered :
    (r : Option (Option PopReply × AppState)) → ((s : AppState) → r ≢ some (none, s)) → IsAnswer r
answered none h = inl refl
answered (some (some reply, s)) h = inr (reply, (s, refl))
answered (some (none, s)) h = absurd (h s refl)

not_answered :
    (b : Bool) (reply : PopReply) (s s' : AppState) (r : Option (Option PopReply × AppState))
    → (if b then some (some reply, s) else r) ≡ some (none, s')
    → r ≡ some (none, s')
not_answered true reply s s' r h = absurd cc
not_answered false reply s s' r h = h

module _ (crc32 : List ℕ → ℕ) where
  pop_done-IsEarly :
      (sync : Bool) (o : Outcome) (deadline : Option ℕ) (instant : ℕ) (s : AppState) (name : String)
      (r : Option (Result (Option (Record × ℕ)) × Engine)) (s' : AppState)
      → pop_done crc32 sync o deadline instant s name r ≡ some (none, s')
      → IsEarly deadline instant
  pop_done-IsEarly sync o deadline instant s name none s' h = absurd cc
  pop_done-IsEarly sync o deadline instant s name (some (err k, e)) s' h = absurd cc
  pop_done-IsEarly sync o deadline instant s name (some (ok (some r), e)) s' h = absurd cc
  pop_done-IsEarly sync o none instant s name (some (ok none, e)) s' h = absurd cc
  pop_done-IsEarly sync o (some until) instant s name (some (ok none, e)) s' h =
      elim (Bool-cases (leb until instant)) [
        | inl late ↦ let k = rw late at h in absurd cc
        | inr early ↦ record { until = until; has_deadline = refl; before = ground (arith, early) }
      ]

  pop_turn-IsEarly :
      (others : ℕ → Engine → Engine) (s : AppState) (name : String) (e : Engine)
      (consumer_id lease_secs now : ℕ) (io : AppendIo) (sync : Bool) (o : Outcome)
      (deadline : Option ℕ) (instant : ℕ) (s' : AppState)
      → pop_turn crc32 others s name e consumer_id lease_secs now io sync o deadline instant
        ≡ some (none, s')
      → IsEarly deadline instant
  unfolding pop_turn
  pop_turn-IsEarly others s name e consumer_id lease_secs now io sync o deadline instant s' h =
      pop_done-IsEarly sync o deadline instant s name
        (pop_and_lease crc32 others e consumer_id lease_secs now io) s'
        (not_answered s.shutting_down _ s s' _ h)

  -- The loop goes on only behind a turn without an answer whose wait ended on a notification.
  behind_turn-none :
      (w : Wakeup) (rest : AppState → Option (Option PopReply × AppState))
      (r : Option (Option PopReply × AppState)) (s' : AppState)
      → behind_turn crc32 w rest r ≡ some (none, s')
      → (w ≡ Wakeup.notified) × ((m : AppState) × (r ≡ some (none, m)) × (rest m ≡ some (none, s')))
  behind_turn-none w rest none s' h = absurd cc
  behind_turn-none w rest (some (some reply, m)) s' h = absurd cc
  behind_turn-none Wakeup.cancelled rest (some (none, m)) s' h = absurd cc
  behind_turn-none Wakeup.timed_out rest (some (none, m)) s' h = absurd cc
  behind_turn-none Wakeup.notified rest (some (none, m)) s' h = (refl, (m, refl, h))

  -- A turn behind which the loop goes on.
  pub record GoesOn (deadline : Option ℕ) (t : PollTurn) : Type 0 where
    pub woken : t.wakeup ≡ Wakeup.notified
    pub early : IsEarly deadline t.instant

  -- If the loop has not answered behind its turns, it went on behind each of them.
  pop_loop-GoesOn :
      (name : String) (consumer_id lease_secs : ℕ) (sync : Bool) (deadline : Option ℕ)
      (ts : List PollTurn) (s : AppState) (e : Engine) (s' : AppState)
      → pop_loop crc32 name consumer_id lease_secs sync deadline ts s e ≡ some (none, s')
      → All (GoesOn deadline) ts
  unfolding pop_loop
  pop_loop-GoesOn name consumer_id lease_secs sync deadline [] s e s' h = tt
  pop_loop-GoesOn name consumer_id lease_secs sync deadline (t ∷ ts) s e s' h =
      let s0 = t.before s in
      let e0 = held crc32 s0 name e in
      let (woken, (m, waits, rest)) =
        behind_turn-none t.wakeup
          (λ m. pop_loop crc32 name consumer_id lease_secs sync deadline ts m e0)
          (pop_turn crc32 t.others s0 name e0 consumer_id lease_secs t.now t.io sync t.synced
            deadline t.instant)
          s' h in
      (
        record {
          woken = woken;
          early =
              pop_turn-IsEarly t.others s0 name e0 consumer_id lease_secs t.now t.io sync t.synced
                deadline t.instant m waits;
        },
        pop_loop-GoesOn name consumer_id lease_secs sync deadline ts m e0 s' rest,
      )

  is_last-GoesOn :
      (deadline : Option ℕ) (t : PollTurn) → GoesOn deadline t → is_last deadline t ≡ false
  is_last-GoesOn deadline t g = rw (g.early.has_deadline, g.woken) (ground (arith, g.early.before))

  ends_by-GoesOn :
      (deadline : Option ℕ) (ts : List PollTurn)
      → All (GoesOn deadline) ts
      → ends_by deadline ts ≡ false
  ends_by-GoesOn deadline [] g = refl
  ends_by-GoesOn deadline (t ∷ ts) g =
      rw (is_last-GoesOn deadline t g.0) (ends_by-GoesOn deadline ts g.1)

  -- The loop of a pop answers, or the engine panics, on any turns of which one must be the last:
  -- any turn if there is no deadline, and else a turn that comes to its wait at the deadline or
  -- later, or whose wait is cancelled or timed out.
  pub pop_loop-Answers :
      (name : String) (consumer_id lease_secs : ℕ) (sync : Bool) (deadline : Option ℕ)
      (ts : List PollTurn) (s : AppState) (e : Engine)
      → ends_by deadline ts ≡ true
      → IsAnswer (pop_loop crc32 name consumer_id lease_secs sync deadline ts s e)
  pop_loop-Answers name consumer_id lease_secs sync deadline ts s e h =
      answered (pop_loop crc32 name consumer_id lease_secs sync deadline ts s e) (λ s' waits.
        let k =
          ends_by-GoesOn deadline ts
            (pop_loop-GoesOn name consumer_id lease_secs sync deadline ts s e s' waits) in
        absurd cc)
