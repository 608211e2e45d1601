-- ===== src/Server/Poll.antt =====
-- server.rs, `pop_handler`: the long poll. Instants are in seconds.
use Prim.Native.String.{String}
use nesso.Base.{
  ℕ, ◌+◌, ◌^◌, Bool, Option, none, some, List, [], ◌∷◌, ltb, leb, ◌==◌, ◌⊎◌, inl, inr,
  if◌then◌else◌,
}
use nesso.Io.{Result, ok, err, Outcome}
use nesso.Record.{Record}
use nesso.Wal.{AppendIo}
use nesso.Engine.{Engine}
use nesso.Engine.Fallback.{pop_and_lease}
use nesso.Server.{
  ApiError, AppState, Reply, replies, fails, from_io, synced_reply, set_queue, find,
  get_or_create_queue, get_existing_queue,
}

-- What ends the wait of a turn.
pub data Wakeup : Type 0 where
  cancelled notified timed_out : Wakeup

-- One turn of the loop: what other requests do in front of it and inside `pop_and_lease`, what the
-- clocks, the append and the sync answer, and what ends its wait.
pub record PollTurn : Type 0 where
  pub before : AppState → AppState
  pub others : ℕ → Engine → Engine
  pub now : ℕ
  pub io : AppendIo
  pub synced : Outcome
  pub instant : ℕ
  pub wakeup : Wakeup

abbrev pub PopReply : Type 0
PopReply = Reply (Option (Record × ℕ))

module _ (crc32 : List ℕ → ℕ) where
  -- What one turn of the loop of `pop_handler` does with the answer of `pop_and_lease`. A body is
  -- the record with its retries; 204 and 503 have none, and `none` is a wait for a wakeup.
  abbrev pop_answer :
      (sync : Bool)
      → Outcome
      → (deadline : Option ℕ) → (instant : ℕ) → Result (Option (Record × ℕ))
      → Option (Reply (Option (Record × ℕ)))
  pop_answer sync o deadline instant (err k) = some (fails (from_io k))
  pop_answer sync o deadline instant (ok (some r)) =
      some (synced_reply sync o (replies 200 (some r)))
  pop_answer sync o none instant (ok none) = some (replies 204 none)
  pop_answer sync o (some deadline) instant (ok none) =
      if leb deadline instant then some (replies 204 none) else none

  abbrev pub pop_done :
      (sync : Bool)
      → Outcome
      → (deadline : Option ℕ) → (instant : ℕ) → AppState
      → String
      → Option (Result (Option (Record × ℕ)) × Engine)
      → Option (Option (Reply (Option (Record × ℕ))) × AppState)
  pop_done sync o deadline instant s name none = none
  pop_done sync o deadline instant s name (some (r, e)) =
      some (pop_answer sync o deadline instant r, set_queue s name e)

  -- One turn of that loop; the outer `none` is a panic of the engine.
  unfoldable pub pop_turn :
      (others : ℕ → Engine → Engine)
      → AppState
      → String
      → Engine
      → (consumer_id lease_secs : ℕ) → (now : ℕ) → AppendIo
      → (sync : Bool) → Outcome
      → (deadline : Option ℕ) → (instant : ℕ)
      → Option (Option (Reply (Option (Record × ℕ))) × AppState)
  pop_turn others s name e consumer_id lease_secs now io sync o deadline instant =
      if s.shutting_down
      then some (some (replies 503 none), s)
      else pop_done sync o deadline instant s name
          (pop_and_lease crc32 others e consumer_id lease_secs now io)

  -- The queue that `pop_handler` asks: it creates one only to wait on it.
  abbrev pop_missing :
      (wait_secs : ℕ)
      → String
      → (now : ℕ) → Result Engine × AppState
      → (Reply (Option (Record × ℕ)) ⊎ Engine) × AppState
  pop_missing wait_secs name now (err k, s) = elim (from_io k) [
    | ApiError.not_found ↦
        if wait_secs == 0
        then (inl (replies 204 none), s)
        else created (get_or_create_queue crc32 s name now)
    | ApiError.conflict ↦ (inl (fails ApiError.conflict), s)
    | ApiError.bad_request ↦ (inl (fails ApiError.bad_request), s)
    | ApiError.internal ↦ (inl (fails ApiError.internal), s)
  ]
    where
      created : Result Engine × AppState → (Reply (Option (Record × ℕ)) ⊎ Engine) × AppState
      created (err k, s) = (inl (fails (from_io k)), s)
      created (ok e, s) = (inr e, s)
  pop_missing wait_secs name now (ok e, s) = (inr e, s)

  -- `pop_handler` up to its loop.
  unfoldable pub pop_start :
      AppState
      → String
      → (wait_secs : ℕ) → (now : ℕ) → (Reply (Option (Record × ℕ)) ⊎ Engine) × AppState
  pop_start s name wait_secs now =
      if s.shutting_down
      then (inl (replies 503 none), s)
      else pop_missing wait_secs name now (get_existing_queue crc32 s name now)

  -- The engine that the handler holds is that of the registry.
  abbrev pub held : AppState → String → Engine → Engine
  held s name e = elim (find name s.queues) [ none ↦ e | some e' ↦ e' ]

  -- Behind a turn: the answer is returned, or the loop goes on with `rest` after a notification.
  abbrev pub behind_turn :
      Wakeup
      → (rest : AppState → Option (Option PopReply × AppState))
      → Option (Option PopReply × AppState)
      → Option (Option PopReply × AppState)
  behind_turn wakeup rest none = none
  behind_turn wakeup rest (some (some reply, s)) = some (some reply, s)
  behind_turn Wakeup.cancelled rest (some (none, s)) = some (some (replies 503 none), s)
  behind_turn Wakeup.timed_out rest (some (none, s)) = some (some (replies 204 none), s)
  behind_turn Wakeup.notified rest (some (none, s)) = rest s

  -- The loop over its turns. The outer `none` is a panic of the engine, the inner one a wait that
  -- goes on behind the last turn.
  unfoldable pub pop_loop :
      String
      → (consumer_id lease_secs : ℕ) → (sync : Bool) → (deadline : Option ℕ) → List PollTurn
      → AppState
      → Engine
      → Option (Option PopReply × AppState)
  pop_loop name consumer_id lease_secs sync deadline [] s e = some (none, s)
  pop_loop name consumer_id lease_secs sync deadline (t ∷ ts) s e =
      let s' = t.before s in
      let e' = held s' name e in
      behind_turn t.wakeup (λ m. pop_loop name consumer_id lease_secs sync deadline ts m e')
        (pop_turn t.others s' name e' consumer_id lease_secs t.now t.io sync t.synced deadline
          t.instant)

  -- `Instant::now() + Duration::from_secs(wait_secs)`, which panics past the seconds of an i64.
  abbrev deadline_of : (began wait_secs : ℕ) → Option (Option ℕ)
  deadline_of began wait_secs =
      if ltb 0 wait_secs
      then (if ltb (began + wait_secs) (2 ^ 63) then some (some (began + wait_secs)) else none)
      else some none

  abbrev polled :
      String
      → (consumer_id lease_secs wait_secs : ℕ) → (sync : Bool) → (began : ℕ) → List PollTurn
      → (PopReply ⊎ Engine) × AppState
      → Option (Option PopReply × AppState)
  polled name consumer_id lease_secs wait_secs sync began turns (inl reply, s) =
      some (some reply, s)
  polled name consumer_id lease_secs wait_secs sync began turns (inr e, s) =
      elim (deadline_of began wait_secs) [
        | none ↦ none
        | some deadline ↦ pop_loop name consumer_id lease_secs sync deadline turns s e
      ]

  unfoldable pub pop_handler :
      AppState
      → String
      → (consumer_id lease_secs wait_secs : ℕ) → (sync : Bool) → (now began : ℕ) → List PollTurn
      → Option (Option PopReply × AppState)
  pop_handler s name consumer_id lease_secs wait_secs sync now began turns =
      polled name consumer_id lease_secs wait_secs sync began turns (pop_start s name wait_secs now)
