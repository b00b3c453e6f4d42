-- ===== src/Board/WriteBehind.antt =====
-- The write-behind saving (board.go: do, Sweep, saveNow, archiveOld): calls come between the critical
-- sections of a save. Authenticate and Export, which sweep outside do, and Shutdown are not steps here.
use agentboard.Prelude.{
  ℕ, ◌+◌, ◌≡◌, refl, ◌⊎◌, true, false, Option, none, some, List, [], ◌∷◌, arith, ltb, length,
  sort_by,
}
use agentboard.Text.TaskId.{id_less}
use agentboard.Model.Data.{Time, Activity, State}
use agentboard.Board.Types.{Error, Event, async, Board, Env}
use agentboard.Board.Leases.{sweep_locked, expired_ids, release_all}
use agentboard.Board.Do.{sweep, Action, do_locked, persist_and_publish_locked}
use agentboard.Board.Saving.{begin_save, end_save, drop_archived, save_dirty, finish_save}
use agentboard.Board.Atomic.{IsAtomic}

-- The board, and the snapshot that the Store is writing, if a save is under way.
abbrev pub Saver : Type 0
Saver = Board × Option State

-- saveMu lets one save run at a time; calls that go through do, and sweeps, may come at any point of
-- it. The writer takes a wake-up when it likes.
pub data SaveStep : Saver → Saver → Type 1 where
  acts :
      {A : Type 0} (fn : Action A)
      → IsAtomic fn
      → (env : Env) (b : Board) (flying : Option State)
      → SaveStep (b, flying) ((do_locked fn env b).0, flying)
  sweeps :
      (env : Env) (b : Board) (flying : Option State)
      → SaveStep (b, flying) ((sweep env b).0, flying)
  wakes :
      (b : Board) (flying : Option State) → SaveStep (b, flying) (record b { kick = false }, flying)
  archive_fails :
      (e : Error) (b : Board)
      → SaveStep (b, none) (record b { last_err = some e; failures = b.failures + 1 }, none)
  archives :
      (now : Time) (batch : List Activity) (b : Board)
      → SaveStep (b, none) (drop_archived now batch b, none)
  begins : (b : Board) → SaveStep (b, none) (begin_save b)
  ends :
      (env : Env) (snap : State) (b : Board) → SaveStep (b, some snap) (end_save env snap b, none)

pub data SaveSteps (s : Saver) : Saver → Type 1 where
  here : SaveSteps s s
  next : {t u : Saver} → SaveSteps s t → SaveStep t u → SaveSteps s u

-- The state is what the Store holds, or what it is about to hold.
abbrev pub IsSettled : Saver → Type 0
IsSettled (b, none) = b.store ≡ b.st
IsSettled (b, some snap) = snap ≡ b.st

-- An open board that saves in the background, whose unsaved changes are marked.
pub record IsTracked (s : Saver) : Type 0 where
  pub background : s.0.mode ≡ async
  pub open_yet : s.0.closed ≡ false
  pub tracked : (s.0.dirty ≡ true) ⊎ IsSettled s

release_nothing :
    (now : Time) (ids : List (List ℕ)) (st : State)
    → (ltb 0 (length ids) ≡ false)
    → release_all now ids st ≡ st
unfolding release_all
release_nothing now [] st h = refl
release_nothing now (id ∷ ids) st h = absurd (ground arith)

-- A sweep that counts no task has changed nothing.
sweep_locked-none :
    (now : Time) (st : State) → ltb 0 (sweep_locked now st).1 ≡ false → (sweep_locked now st).0 ≡ st
unfolding sweep_locked
sweep_locked-none now st h = release_nothing now (sort_by id_less (expired_ids now st.tasks)) st h

-- After a call of an open board in the background mode the change is marked, or there was none.
do_locked-marks :
    {A : Type 0} (fn : Action A) (env : Env) (b : Board)
    → IsAtomic fn
    → b.mode ≡ async
    → b.closed ≡ false
    → let b' = (do_locked fn env b).0 in
      (b'.mode ≡ async)
      × (b'.closed ≡ false)
      × ((b'.dirty ≡ true) ⊎ ((b'.dirty ≡ b.dirty) × (b'.st ≡ b.st) × (b'.store ≡ b.store)))
unfolding do_locked persist_and_publish_locked
do_locked-marks fn env b atomic m o =
    let quiet = (atomic env.now (sweep_locked env.now b.st).0).quiet in
    ground (arith, sweep_locked-none env.now b.st, quiet)

-- So it is after a sweep.
sweep-marks :
    (env : Env) (b : Board)
    → b.mode ≡ async
    → b.closed ≡ false
    → let b' = (sweep env b).0 in
      (b'.mode ≡ async)
      × (b'.closed ≡ false)
      × ((b'.dirty ≡ true) ⊎ ((b'.dirty ≡ b.dirty) × (b'.st ≡ b.st) × (b'.store ≡ b.store)))
unfolding sweep persist_and_publish_locked
sweep-marks env b m o = ground (arith, sweep_locked-none env.now b.st)

drop_archived-IsTracked :
    (now : Time) (batch : List Activity) (b : Board)
    → IsTracked (b, none)
    → IsTracked (drop_archived now batch b, none)
unfolding drop_archived
drop_archived-IsTracked now [] b v = v
drop_archived-IsTracked now (a ∷ rest) b v = ground arith

-- Every step of a save and every call in between keeps the changes tracked.
SaveStep-IsTracked : {s t : Saver} → SaveStep s t → IsTracked s → IsTracked t
unfolding begin_save end_save
SaveStep-IsTracked (acts fn atomic env b none) v =
    let kept = do_locked-marks fn env b atomic v.background v.open_yet in ground arith
SaveStep-IsTracked (acts fn atomic env b (some snap)) v =
    let kept = do_locked-marks fn env b atomic v.background v.open_yet in ground arith
SaveStep-IsTracked (sweeps env b none) v =
    let kept = sweep-marks env b v.background v.open_yet in ground arith
SaveStep-IsTracked (sweeps env b (some snap)) v =
    let kept = sweep-marks env b v.background v.open_yet in ground arith
SaveStep-IsTracked (wakes b none) v = ground arith
SaveStep-IsTracked (wakes b (some snap)) v = ground arith
SaveStep-IsTracked (archive_fails e b) v = ground arith
SaveStep-IsTracked (archives now batch b) v = drop_archived-IsTracked now batch b v
SaveStep-IsTracked (begins b) v = ground arith
SaveStep-IsTracked (ends env snap b) v = ground arith

pub SaveSteps-IsTracked : {s t : Saver} → SaveSteps s t → IsTracked s → IsTracked t
SaveSteps-IsTracked here v = v
SaveSteps-IsTracked (next r st) v = SaveStep-IsTracked st (SaveSteps-IsTracked r v)

-- However calls through do, sweeps and saves interleave, if they start from an open board in the background mode whose
-- changes are tracked, a board that has no unsaved changes and no save under way has its state in the
-- Store.
pub clean_is_saved :
    {s : Saver} (b : Board) → IsTracked s → SaveSteps s (b, none) → b.dirty ≡ false → b.store ≡ b.st
clean_is_saved b v r clean = let w = SaveSteps-IsTracked r v in ground arith

-- A save that no call interrupts and that the Store accepts leaves the state in the Store and nothing
-- unsaved, after any calls through do, sweeps and saves that start from an open board in the background mode whose
-- changes are tracked.
pub save_dirty-saved :
    {s : Saver} (b : Board) (env : Env)
    → IsTracked s
    → SaveSteps s (b, none)
    → env.save_error ≡ none
    → ((save_dirty env b).0.store ≡ b.st) × ((save_dirty env b).0.dirty ≡ false)
unfolding save_dirty begin_save finish_save
save_dirty-saved b env v r accepted = let w = SaveSteps-IsTracked r v in ground arith

-- After Close calls save inline, with no regard to a save under way: when a flush has taken its
-- snapshot of a dirty board, a call then changes the state and its inline save is accepted, and the
-- flush's own save is accepted last, the Store is left with the old snapshot and nothing is marked
-- unsaved.
pub closed_save_overwrites :
    {A : Type 0} (fn : Action A) (env env' : Env) (b : Board) (ev : Event)
    → b.closed ≡ true
    → b.dirty ≡ true
    → env.save_error ≡ none
    → env'.save_error ≡ none
    → (fn env.now (sweep_locked env.now b.st).0).1 ≡ some ev
    → let acted = (do_locked fn env (begin_save b).0).0 in
      let b' = end_save env' b.st acted in
      (acted.store ≡ acted.st)
      × (acted.dirty ≡ false)
      × (b'.store ≡ b.st)
      × (b'.st ≡ (fn env.now (sweep_locked env.now b.st).0).0)
      × (b'.dirty ≡ false)
unfolding do_locked persist_and_publish_locked begin_save end_save
closed_save_overwrites fn env env' b ev closed dirty ok1 ok2 changed = ground arith
