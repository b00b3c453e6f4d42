-- ===== src/Board/Saving.antt =====
-- board.go: saveNow, archiveOld, Flush, Close, saveStatusLocked and Shutdown. A save is two critical
-- sections with the disk between them: `begin_save` takes the snapshot, `end_save` books the answer.
use agentboard.Prelude.{
  ℕ, ◌+◌, ◌-◌, ◌/◌, Bool, true, false, not, ◌&&◌, Option, none, some, List, [], ◌∷◌, ltb, leb,
  if◌then◌else◌, is_empty, length, take, Str, runes, map_values,
}
use agentboard.Model.Data.{Time, Agent, Activity, State}
use agentboard.Board.Types.{Error, EventType, SaveMode, Board, Env}
use agentboard.Board.Inputs.{system_actor}
use agentboard.Board.Leases.{log, sweep_locked}
use agentboard.Board.Do.{event, mark_dirty, publish_locked, persist_and_publish_locked}

abbrev pub needs_archiving : Board → Bool
needs_archiving b = not (is_empty b.archive_dir) && ltb b.max_activity (length b.st.activity)

-- The entries that the first critical section of archiveOld copies.
unfoldable pub archive_batch : Board → List Activity
archive_batch b =
    if needs_archiving b then take (length b.st.activity - b.max_activity / 2) b.st.activity else []

unfoldable pub last_id : List Activity → ℕ
last_id [] = 0
last_id (a ∷ []) = a.id
last_id (a ∷ c ∷ rest) = last_id (c ∷ rest)

unfoldable pub drop_through : ℕ → List Activity → List Activity
drop_through cut [] = []
drop_through cut (a ∷ rest) = if leb a.id cut then drop_through cut rest else a ∷ rest

-- The second critical section, once the batch is in the archive files.
unfoldable pub drop_archived : Time → List Activity → Board → Board
unfolding last_id drop_through
drop_archived now [] b = b
drop_archived now (a ∷ rest) b =
    let cut = last_id (a ∷ rest) in
    let st = record b.st {
      activity = drop_through cut b.st.activity;
      archived_through = (if ltb b.st.archived_through cut then cut else b.st.archived_through);
    } in
    mark_dirty now (record b { st = st })

-- The snapshot to save, if there are unsaved changes. They count as saved from here on.
unfoldable pub begin_save : Board → Board × Option State
begin_save b = if b.dirty then (record b { dirty = false }, some b.st) else (b, none)

abbrev book_save : Env → State → Option Error → Board → Board
book_save env snap (some e) b = record b {
  dirty = true;
  last_err = some e;
  failures = b.failures + 1;
}
book_save env snap none b = record b {
  store = snap;
  last_err = none;
  last_save = env.now;
  saves = b.saves + 1;
  kick = (if b.dirty then true else b.kick);
}

-- The Store has answered for this snapshot.
unfoldable pub end_save : Env → State → Board → Board
unfolding publish_locked
end_save env snap b =
    publish_locked env.now (event EventType.save []) (book_save env snap env.save_error b)

unfoldable pub finish_save : Env → Option State → Board → Board × Option Error
unfolding end_save
finish_save env none b = (b, none)
finish_save env (some snap) b = (end_save env snap b, env.save_error)

-- What saveNow does after the archive step.
unfoldable pub save_dirty : Env → Board → Board × Option Error
unfolding finish_save begin_save
save_dirty env b = finish_save env (begin_save b).1 (begin_save b).0

-- `archive_error` is the answer of appendArchive, if the step calls it.
unfoldable pub archive_then_save : Option Error → List Activity → Env → Board → Board × Option Error
unfolding save_dirty drop_archived
archive_then_save archive_error [] env b = save_dirty env b
archive_then_save none (a ∷ rest) env b = save_dirty env (drop_archived env.now (a ∷ rest) b)
archive_then_save (some e) (a ∷ rest) env b =
    (record b { last_err = some e; failures = b.failures + 1 }, some e)

-- saveNow when no other call comes between its critical sections.
unfoldable pub save_now : Option Error → Env → Board → Board × Option Error
unfolding archive_then_save archive_batch
save_now archive_error env b = archive_then_save archive_error (archive_batch b) env b

-- Flush with a context that is not cancelled.
unfoldable pub flush : Option Error → Env → Board → Board × Option Error
unfolding save_now
flush archive_error env b = save_now archive_error env b

-- The writer has stopped; from here on changes are saved inline.
unfoldable pub close : Option Error → Env → Board → Board × Option Error
unfolding flush
close archive_error env b = flush archive_error env (record b { closed = true })

pub record SaveStatus : Type 0 where
  pub mode : SaveMode
  pub dirty : Bool
  pub last_save : Time
  pub last_error : Option Error
  pub lag_millis : ℕ
  pub saves : ℕ
  pub failures : ℕ

unfoldable pub save_status_locked : Time → Board → SaveStatus
save_status_locked now b = record {
  mode = b.mode;
  dirty = b.dirty;
  last_save = b.last_save;
  last_error = b.last_err;
  lag_millis = (if b.dirty then (now - b.dirty_since) / 1_000_000 else 0);
  saves = b.saves;
  failures = b.failures;
}

pub data SaveHealth : Type 0 where
  saved saving failed : SaveHealth

-- SaveStatus.State of model/model.go
unfoldable pub health : SaveStatus → SaveHealth
health s = elim s.last_error [ some e ↦ failed | none ↦ if s.dirty then saving else saved ]

-- An agent as Shutdown leaves it. Clocks do not start below the TTL, so the truncated `-` is exact.
unfoldable pub offline : ℕ → Time → Agent → Agent
offline ttl now a = record a {
  last_heartbeat = (if ltb (now - ttl) a.last_heartbeat then now - ttl else a.last_heartbeat);
  current_task = [];
}

-- Shutdown's change to the state, under the lock.
unfoldable pub stop_agents : ℕ → Str → Time → State → State
unfolding offline log
stop_agents ttl actor now st =
    let swept = (sweep_locked now st).0 in
    let name = if is_empty actor then system_actor else actor in
    log now name [] (runes "server_stopped") []
      (record swept { agents = map_values (offline ttl now) swept.agents })

-- `env` is the call's, `later` that of the flush at its end.
unfoldable pub shutdown : Str → Option Error → Env → Env → Board → Board × Option Error
unfolding stop_agents persist_and_publish_locked flush
shutdown actor archive_error env later b =
    let stopped = record b { st = stop_agents b.agent_ttl actor env.now b.st } in
    flush archive_error later
      (persist_and_publish_locked env (event EventType.shutdown []) stopped).0
