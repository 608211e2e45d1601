-- ===== src/Engine/Logged/Survival.antt =====
-- storage/engine.rs: the tasks survive a crash, since both engines agree with one log.
use nesso.Base.{
  ℕ, ◌-◌, ◌^◌, ◌≤◌, ◌<◌, ◌≡◌, refl, sym, ◌∙◌, subst, none, List, All, All-append, All-weaken,
  length, arith, IsU8, IsU32,
}
use nesso.Base.Keys.{DistinctKeys}
use nesso.Disk.{Disk}
use nesso.Wal.{AppendIo, iter_all, open_wal, Wal}
use nesso.Engine.Expiration.{expired_tasks, expiration_round}
use nesso.Engine.Recovery.Once.{recover-DistinctKeys}
use nesso.Engine.Logged.Rounds.{FailsAll, expiration_round-Run, Run-DistinctKeys}
use nesso.Io.{ok}
use nesso.Record.{Record}
use nesso.Wal.Scan.Laws.{Fits}
use nesso.Wal.Reader.{new_reader}
use nesso.Engine.{Engine, new_state, new_with_cache_capacity, EngineState}
use nesso.Engine.Recovery.Ids.{IdsBelow, recover-IdsBelow, recover-IsU64, recover-wal}
use nesso.Engine.Recovery.Sound.{IsSound, Agrees-IsValid}
use nesso.Engine.Recovery.{open_engine, recover}
use nesso.Queue.Invariant.{IsValid as IsQueue}
use nesso.Engine.Recovery.Ascending.{iter_all-IsAscending}
use nesso.Engine.Recovery.Directory.{open_engine-IsLog}
use nesso.Engine.Recovery.Replay.{Replays, IsLog, Agrees}
use nesso.Engine.Logged.Following.{Follows, Run-Follows}
use nesso.Engine.Logged.Growth.{IsOpen}
use nesso.Engine.Logged.Restart.{Run-Written, open_wal-iter_all, open_wal-IsOpen}
use nesso.Engine.Logged.Run.{Run}
use nesso.Engine.Logged.Places.{Placed, Run-Placed, Replays-places}
use nesso.Engine.Logged.SameTasks.{Agrees-SameTasks, NoneExpired, SameTasks}

ok_injective : (e e' : Engine) → ok e ≡ ok e' → e ≡ e'
ok_injective e e' h = cc

module _ (crc32 : List ℕ → ℕ) where
  -- An engine that follows the log on its disk, the log being open with u8 priorities, and that has
  -- the payload of each task at the place of its last creation and one lease for a task at most.
  pub record IsRunning (since : ℕ) (e : Engine) : Type 0 where
    pub rs : List Record
    pub is_open : IsOpen crc32 e.inner.wal e.disk rs
    pub follows : Follows crc32 since (iter_all crc32 e.disk) e.inner
    pub priorities : All (λ x. IsU8 x.2.priority) (iter_all crc32 e.disk)
    pub places : Placed (iter_all crc32 e.disk) e.inner
    pub once : DistinctKeys e.inner.leased

  IsRunning-IsLog :
      (since : ℕ) (e : Engine)
      → IsRunning since e
      → length (iter_all crc32 e.disk) < 2 ^ 64
      → IsLog (iter_all crc32 e.disk)
  IsRunning-IsLog since e h room = record {
    ascending = iter_all-IsAscending crc32 e.disk h.is_open.names;
    priorities = h.priorities;
    counted = room;
  }

  -- What the callback was told does not matter.
  IsRunning-same :
      (since : ℕ) (e e' : Engine)
      → e'.inner ≡ e.inner
      → e'.disk ≡ e.disk
      → IsRunning since e
      → IsRunning since e'
  IsRunning-same since e e' inner disk h = record {
    rs = h.rs;
    is_open = rw (inner, disk) h.is_open;
    follows = rw (inner, disk) h.follows;
    priorities = rw disk h.priorities;
    places = rw (inner, disk) h.places;
    once = rw inner h.once;
  }

  module _ (crc32_word : (bs : List ℕ) → IsU32 (crc32 bs)) where
    -- An engine stays running whatever operations write their records.
    pub Run-IsRunning :
        (since : ℕ) (e e' : Engine) (xs : List (ℕ × ℕ × Record))
        → Run crc32 since e xs e'
        → IsRunning since e
        → IsRunning since e'
    Run-IsRunning since e e' xs run h =
        let w = Run-Written crc32 crc32_word since e e' h.rs xs run h.is_open in
        record {
          rs = w.rs;
          is_open = w.is_open;
          follows =
              subst (λ (l : List (ℕ × ℕ × Record)). Follows crc32 since l e'.inner) (sym w.yields)
                (Run-Follows crc32 since e e' (iter_all crc32 e.disk) xs run h.follows);
          priorities = subst (All (λ (x : ℕ × ℕ × Record). IsU8 x.2.priority)) (sym w.yields) (
              All-append (λ (x : ℕ × ℕ × Record). IsU8 x.2.priority) (iter_all crc32 e.disk) xs
                h.priorities
                (All-weaken (λ (x : ℕ × ℕ × Record). Fits x.2) _
                  (λ x fits. fits.is_record.priority_fits) xs w.fit));
          places =
              subst (λ (l : List (ℕ × ℕ × Record)). Placed l e'.inner) (sym w.yields)
                (Run-Placed crc32 since e e' (iter_all crc32 e.disk) xs run h.follows.valid
                  h.places).1;
          once = Run-DistinctKeys crc32 since e e' xs run h.once;
        }

    -- The engine that opens the directory of a running engine.
    record Reopened (now : ℕ) (e e' : Engine) : Type 0 where
      opened : open_engine crc32 now e.disk ≡ ok e'
      running : IsRunning now e'
      replays : Replays now (iter_all crc32 e.disk) e'.inner

    -- What recovery restores from a log that engines wrote follows that log.
    recovered-Follows :
        (now : ℕ) (d : Disk) (wal : Wal) (s : EngineState)
        → IsLog (iter_all crc32 d)
        → Agrees now (iter_all crc32 d) s
        → IsQueue s.ready_queue
        → IdsBelow (2 ^ 64 - 1) (iter_all crc32 d)
        → All IsSound (iter_all crc32 d)
        → (recover crc32 now new_reader d (new_state wal)).0 ≡ ok s
        → Follows crc32 now (iter_all crc32 d) s
    recovered-Follows now d wal s is_log agrees queue below sound recovered =
        let ids = recover-IdsBelow crc32 now new_reader d (new_state wal) s below recovered in
        let fits =
          recover-IsU64 crc32 now new_reader d (new_state wal) s
            (unfold new_state new_with_cache_capacity in omega arith) recovered in
        record {
          valid = Agrees-IsValid now (iter_all crc32 d) s agrees queue fits is_log ids sound;
          agrees = agrees;
          ids = ids;
          sound = sound;
        }

    reopen :
        (since now : ℕ) (e : Engine)
        → IsRunning since e
        → length (iter_all crc32 e.disk) < 2 ^ 64
        → (e' : Engine) × Reopened now e e'
    reopen since now e h room =
        let log = iter_all crc32 e.disk in
        let d = (open_wal crc32 e.disk none).1 in
        let s = new_state (open_wal crc32 e.disk none).0 in
        let same : iter_all crc32 d ≡ log =
          open_wal-iter_all crc32 crc32_word e.inner.wal e.disk h.rs h.is_open in
        let is_log = subst IsLog (sym same) (IsRunning-IsLog since e h room) in
        let (e', opened, disk, replays, queue, recovered) =
          open_engine-IsLog crc32 now e.disk is_log in
        let below : IdsBelow (2 ^ 64 - 1) (iter_all crc32 d) =
          subst (IdsBelow (2 ^ 64 - 1)) (sym same) (
            All-weaken (λ (x : ℕ × ℕ × Record). x.2.id < e.inner.next_id) _
              (λ x l. omega (arith, h.follows.valid.ids)) log h.follows.ids) in
        let follows =
          recovered-Follows now d (open_wal crc32 e.disk none).0 e'.inner is_log replays.agrees
            queue below (subst (All IsSound) (sym same) h.follows.sound) recovered in
        let replayed : Replays now log e'.inner =
          subst (λ (l : List (ℕ × ℕ × Record)). Replays now l e'.inner) same replays in
        let places =
          Replays-places since now log e.inner e'.inner h.follows.agrees h.places replayed in
        let placed : Placed log e'.inner = λ id loc at. h.places id loc (sym (places id) ∙ at) in
        let wal : e'.inner.wal ≡ (open_wal crc32 e.disk none).0 =
          recover-wal crc32 now new_reader d s e'.inner recovered
          ∙ unfold new_state new_with_cache_capacity in refl in
        (
          e',
          record {
            opened = opened;
            running = record {
              rs = h.rs;
              is_open =
                  rw (wal, disk)
                    (open_wal-IsOpen crc32 crc32_word e.inner.wal e.disk h.rs h.is_open);
              follows =
                  subst (λ (x : Disk). Follows crc32 now (iter_all crc32 x) e'.inner) (sym disk)
                    follows;
              priorities =
                  subst
                    (λ (x : Disk).
                      All (λ (y : ℕ × ℕ × Record). IsU8 y.2.priority) (iter_all crc32 x))
                    (sym disk) is_log.priorities;
              places =
                  subst (λ (x : Disk). Placed (iter_all crc32 x) e'.inner) (sym disk)
                    (subst (λ (l : List (ℕ × ℕ × Record)). Placed l e'.inner) (sym same) placed);
              once =
                  recover-DistinctKeys crc32 now new_reader d s e'.inner recovered
                    (unfold new_state new_with_cache_capacity in tt);
            };
            replays = replayed;
          },
        )

    -- Operations whose records are written, whole rounds of the expiration thread whose records are
    -- written, with nothing in between their two locked sections, crashes and restarts, in any
    -- order.
    pub data Lives : ℕ → Engine → ℕ → Engine → Type 0 where
      stays : (since : ℕ) (e : Engine) → Lives since e since e
      runs :
          (start since : ℕ) (e e' e'' : Engine) (xs : List (ℕ × ℕ × Record))
          → Lives start e since e'
          → Run crc32 since e' xs e''
          → Lives start e since e''
      rounds :
          (start since now : ℕ) (e e' : Engine) (io : ℕ → AppendIo) (xs : List (ℕ × ℕ × Record))
          → Lives start e since e'
          → FailsAll crc32 since e' (expired_tasks now e'.inner.leased) io xs
          → Lives start e since (expiration_round crc32 (λ x. x) e' now io)
      restarts :
          (start since now : ℕ) (e e' e'' : Engine)
          → Lives start e since e'
          → length (iter_all crc32 e'.disk) < 2 ^ 64
          → open_engine crc32 now e'.disk ≡ ok e''
          → Lives start e now e''

    pub Lives-IsRunning :
        (start since : ℕ) (e e' : Engine)
        → Lives start e since e'
        → IsRunning start e
        → IsRunning since e'
    Lives-IsRunning start _ e _ (Lives.stays _ _) h = h
    Lives-IsRunning start since e e' (Lives.runs _ _ _ m _ xs before run) h =
        Run-IsRunning since m e' xs run (Lives-IsRunning start since e m before h)
    Lives-IsRunning start since e _ (Lives.rounds _ _ now _ m io xs before written) h =
        let v = Lives-IsRunning start since e m before h in
        let (m', run, inner, disk) = expiration_round-Run crc32 since m now io xs v.once written in
        IsRunning-same since m' (expiration_round crc32 (λ x. x) m now io) inner disk
          (Run-IsRunning since m m' xs run v)
    Lives-IsRunning start now e e' (Lives.restarts _ since _ _ m _ before room opened) h =
        let (e'', r) = reopen since now m (Lives-IsRunning start since e m before h) room in
        let same : e'' ≡ e' = ok_injective e'' e' (sym r.opened ∙ opened) in
        subst (IsRunning now) same r.running

    pub restart_exact :
        (start since now : ℕ) (e e' : Engine)
        → IsRunning start e
        → Lives start e since e'
        → length (iter_all crc32 e'.disk) < 2 ^ 64
        → since ≤ now
        → NoneExpired now e'.inner.leased
        → (e'' : Engine) × (open_engine crc32 now e'.disk ≡ ok e'') × SameTasks e'.inner e''.inner
    restart_exact start since now e e' h lives room later fresh =
        let h' = Lives-IsRunning start since e e' lives h in
        let (e'', r) = reopen since now e' h' room in
        (
          e'',
          r.opened,
          Agrees-SameTasks since now (iter_all crc32 e'.disk) e'.inner e''.inner later
              h'.follows.agrees r.replays.agrees fresh
              (Replays-places since now (iter_all crc32 e'.disk) e'.inner e''.inner
                h'.follows.agrees h'.places r.replays),
        )
