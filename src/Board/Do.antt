-- ===== src/Board/Do.antt =====
-- board.go: do, persistAndPublishLocked, publishLocked, Sweep, Subscribe.
use agentboard.Prelude.{
  ℕ, ◌+◌, Bool, true, false, ◌||◌, Option, none, some, List, [], ◌∷◌, ◌++◌, map, ltb, ◌==◌,
  if◌then◌else◌, length, keep, not,
}
use agentboard.Model.Data.{Time, State}
use agentboard.Board.Types.{
  Result, ok, err, Error, Reply, Event, EventType, Subscriber, SaveMode, async, sync, Board, Env,
}
use agentboard.Board.Inputs.{subscriber_buf_size}
use agentboard.Board.Leases.{sweep_locked}

-- A full channel drops the event.
offer : Event → Subscriber → Subscriber
offer ev s =
    if ltb (length s.queue) subscriber_buf_size then record s { queue = s.queue ++ ev ∷ [] } else s

unfoldable pub publish_locked : Time → Event → Board → Board
unfolding offer
publish_locked now ev b = record b { subs = map (offer (record ev { at = now })) b.subs }

abbrev is_sync : SaveMode → Bool
is_sync sync = true
is_sync async = false

abbrev pub mark_dirty : Time → Board → Board
mark_dirty now b = if b.dirty then b else record b { dirty = true; dirty_since = now }

-- The bookkeeping of an inline save with this answer of the Store.
abbrev save_inline : Time → Option Error → Board → Board
save_inline now (some e) b = record b { last_err = some e; failures = b.failures + 1 }
save_inline now none b = record b {
  dirty = false;
  last_err = none;
  last_save = now;
  saves = b.saves + 1;
  store = b.st;
}

unfoldable pub persist_and_publish_locked : Env → Event → Board → Board × Option Error
unfolding publish_locked
persist_and_publish_locked env ev b =
    let marked = mark_dirty env.now b in
    if is_sync b.mode || b.closed
    then (publish_locked env.now ev (save_inline env.now env.save_error marked), env.save_error)
    else (publish_locked env.now ev (record marked { kick = true }), none)

abbrev pub event : EventType → List ℕ → Event
event type task_id = record { type = type; task_id = task_id; at = 0 }

-- An operation under the lock: the state that it leaves, its event if it changed something, and its
-- result.
abbrev pub Action {ℓ} : Type ℓ → Type ℓ
Action A = Time → State → State × Option Event × Result A

abbrev pub reply_of {ℓ} : {A : Type ℓ} → Result A → Reply A
reply_of (ok a) = record { value = some a; error = none }
reply_of (err e) = record { value = none; error = some e }

-- `if serr := …; err == nil { err = serr }`
abbrev pub with_save_error {ℓ} : {A : Type ℓ} → Option Error → Reply A → Reply A
with_save_error serr r = elim r.error [ none ↦ record r { error = serr } | some e ↦ r ]

-- A sweep changed the state even where the operation did not.
abbrev sweep_event : ℕ → Option Event → Option Event
sweep_event swept (some ev) = some ev
sweep_event swept none = if ltb 0 swept then some (event EventType.sweep []) else none

abbrev finish {ℓ} : {A : Type ℓ} → Env → Option Event → Result A → Board → Board × Reply A
finish env none r b = (b, reply_of r)
finish env (some ev) r b =
    unfold persist_and_publish_locked in
    let (b', serr) = persist_and_publish_locked env ev b in (b', with_save_error serr (reply_of r))

-- `do` is a reserved word.
unfoldable pub do_locked {ℓ} : {A : Type ℓ} → Action A → Env → Board → Board × Reply A
unfolding persist_and_publish_locked
do_locked fn env b =
    let (st, swept) = sweep_locked env.now b.st in
    let (st', ev, r) = fn env.now st in finish env (sweep_event swept ev) r (record b { st = st' })

unfoldable pub sweep : Env → Board → Board × ℕ
unfolding persist_and_publish_locked
sweep env b =
    let (st, n) = sweep_locked env.now b.st in
    let b' = record b { st = st } in
    (if ltb 0 n then (persist_and_publish_locked env (event EventType.sweep []) b').0 else b', n)

-- The new subscriber's id stands for its channel.
unfoldable pub subscribe : Board → Board × ℕ
subscribe b = (
  record b {
    subs = b.subs ++ (record { id = b.next_sub; queue = [] } ∷ []);
    next_sub = b.next_sub + 1;
  },
  b.next_sub,
)

-- The cancel function that Subscribe returns.
unfoldable pub cancel : ℕ → Board → Board
cancel id b = record b { subs = keep (λ s. not (s.id == id)) b.subs }
