-- ===== src/Board/Sweep.antt =====
-- What the sweep does to each task (board.go: sweepLocked).
use agentboard.Prelude.{
  ◌≡◌, refl, ap, Bool, false, Option, none, some, List, [], ◌∷◌, arith, Str, str_eq, str_eq_iff,
  any, any-sort_by, sort_by, Table, lookup, Distinct, lookup-insert, map_option, if◌then◌else◌,
  Option-cases, inl, inr, runes, ◌&&◌, leb,
}
use agentboard.Text.TaskId.{id_less}
use agentboard.Model.Status
use agentboard.Model.Status.{Status, todo, in_progress, review, done, blocked, unknown}
use agentboard.Model.Data.{Time, Task, State}
use agentboard.Board.Leases.{
  put_task, clear_current_locked, lease_over, has_expired, expired_ids, swept, release_expired,
  release_all, sweep_locked,
}

-- Whether a task of this status and this lease is to be handed back: it is in progress, and its lease ends now or has
-- ended.
abbrev pub is_due : Time → Status → Option Time → Bool
is_due now in_progress (some e) = leb e now
is_due now in_progress none = false
is_due now _ lease = false

-- A task that is handed back: it is open again, without holder and lease, the update is system's, and all else is kept.
abbrev pub handed_back : Time → Task → Task
handed_back now t = record {
  id = t.id;
  project = t.project;
  kind = t.kind;
  parent = t.parent;
  title = t.title;
  description = t.description;
  status = todo;
  priority = t.priority;
  labels = t.labels;
  assignee = [];
  lease_expires = none;
  lease_seconds = 0;
  created_by = t.created_by;
  updated_by = runes "system";
  created_at = t.created_at;
  updated_at = now;
  start_date = t.start_date;
  end_date = t.end_date;
}

unfoldable pub after_sweep : Time → Task → Task
after_sweep now t = if is_due now t.status t.lease_expires then handed_back now t else t

has_expired-is_due :
    (now : Time) (t : Task) → has_expired now t ≡ is_due now t.status t.lease_expires
unfolding has_expired Status.eq
has_expired-is_due now t = by_status t.status t.lease_expires
  where
    by_status :
        (s : Status) (l : Option Time)
        → (Status.eq s in_progress && lease_over now l) ≡ is_due now s l
    by_status in_progress none = refl
    by_status in_progress (some e) = refl
    by_status todo l = refl
    by_status review l = refl
    by_status done l = refl
    by_status blocked l = refl
    by_status (unknown s) l = refl

swept-handed_back : (now : Time) (t : Task) → swept now t ≡ handed_back now t
unfolding swept
swept-handed_back now t = refl

clear_current_locked-tasks :
    (agent id : Str) (st : State) → (clear_current_locked agent id st).tasks ≡ st.tasks
unfolding clear_current_locked
clear_current_locked-tasks agent id st = ground arith

swept_idem : (now : Time) (t : Task) → swept now (swept now t) ≡ swept now t
unfolding swept
swept_idem now t = refl

release_expired-lookup :
    (now : Time) (id j : Str) (st : State)
    → lookup j (release_expired now id st).tasks
      ≡ (if str_eq id j then map_option (swept now) (lookup j st.tasks) else lookup j st.tasks)
unfolding release_expired
release_expired-lookup now id j st = elim (Option-cases (lookup id st.tasks)) [
  | inl e ↦ rw (e, release_expired) (ground (arith, str_eq_iff id j))
  | inr (t, e) ↦
      rw (e, release_expired)
        (ground (
          arith,
          str_eq_iff id j,
          clear_current_locked-tasks t.assignee id (put_task id (swept now t) st),
          lookup-insert id j (swept now t) st.tasks,
        ))
]

map_swept_twice :
    (now : Time) (o : Option Task)
    → map_option (swept now) (map_option (swept now) o) ≡ map_option (swept now) o
map_swept_twice now none = refl
map_swept_twice now (some t) = ap some (swept_idem now t)

release_all-lookup :
    (now : Time) (ids : List Str) (j : Str) (st : State)
    → lookup j (release_all now ids st).tasks ≡ (
        if any (str_eq j) ids
        then map_option (swept now) (lookup j st.tasks)
        else lookup j st.tasks)
unfolding release_all
release_all-lookup now [] j st = refl
release_all-lookup now (id ∷ ids) j st = ground (
  arith,
  release_all-lookup now ids j (release_expired now id st),
  release_expired-lookup now id j st,
  map_swept_twice now (lookup j st.tasks),
  str_eq_iff id j,
  str_eq_iff j id,
)

abbrev expired_option : Time → Option Task → Bool
expired_option now none = false
expired_option now (some t) = has_expired now t

expired_ids-any :
    (now : Time) (j : Str) (m : Table Task)
    → Distinct m
    → any (str_eq j) (expired_ids now m) ≡ expired_option now (lookup j m)
unfolding expired_ids lookup
expired_ids-any now j [] d = refl
expired_ids-any now j ((id, t) ∷ m) d =
    ground (arith, expired_ids-any now j m d.1, str_eq_iff id j, str_eq_iff j id)

-- Where each id is listed once, the sweep hands back the tasks in progress whose lease has run out, and
-- leaves every other task as it is.
pub sweep_locked-lookup :
    (now : Time) (st : State) (id : Str)
    → Distinct st.tasks
    → lookup id (sweep_locked now st).0.tasks ≡ map_option (after_sweep now) (lookup id st.tasks)
unfolding sweep_locked after_sweep
sweep_locked-lookup now st id d = ground (
  arith,
  release_all-lookup now (sort_by id_less (expired_ids now st.tasks)) id st,
  any-sort_by {0} (str_eq id) id_less (expired_ids now st.tasks),
  expired_ids-any now id st.tasks d,
  spec now (lookup id st.tasks),
)
  where
    spec :
        (now : Time) (o : Option Task)
        → (if expired_option now o then map_option (swept now) o else o)
          ≡ map_option (after_sweep now) o
    spec now none = refl
    spec now (some t) = rw (has_expired-is_due now t, swept-handed_back now t) (ground arith)

-- Where each id is listed once, no lease of a task in progress has run out after the sweep.
sweep_locked-none_expired :
    (now : Time) (st : State) (id : Str) (t : Task)
    → Distinct st.tasks
    → lookup id (sweep_locked now st).0.tasks ≡ some t
    → has_expired now t ≡ false
unfolding after_sweep has_expired swept Status.eq
sweep_locked-none_expired now st id t d h = ground (arith, sweep_locked-lookup now st id d)
