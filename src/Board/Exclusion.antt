-- ===== src/Board/Exclusion.antt =====
-- What a claim gives: nobody else gets the task while the lease runs (board.go: Claim, with do and
-- the sweep in between).
use agentboard.Prelude.{
  ℕ, ◌≡◌, refl, sym, ap, ◌∙◌, ◌≢◌, true, false, some, [], arith, Str, str_eq_iff, lookup,
  lookup-insert_self, inl, inr, is_some, map_option,
}
use agentboard.Prelude.Int.{ℤ}
use agentboard.Text.{name_re}
use agentboard.Model.Status
use agentboard.Model.Status.{todo, in_progress, done}
use agentboard.Model.Data.{Time, Task, State}
use agentboard.Board.Types.{Result, ok, err, Result-cases, Error, claimed, Board, Env}
use agentboard.Board.Leases.{
  put_task, has_expired, sweep_locked, task_locked, lease_over, touch_agent_locked, log,
}
use agentboard.Board.Do.{Action, do_locked, reply_of, persist_and_publish_locked}
use agentboard.Board.Tasks.{on_ok, checked, refused}
use agentboard.Board.Claims.{leased, claimable, claim_action, check_claim, claim}
use agentboard.Board.Sweep.{after_sweep, sweep_locked-lookup}
use agentboard.Board.Consistency.Rules.{IsConsistent}
use agentboard.Board.Consistency.Keeps.{do_locked-st, do_locked-IsConsistent}
use agentboard.Board.Consistency.Claims.{claim_action-KeepsConsistent, name_re-ne-nil}

-- What do replies is the closure's result, with the save error beside it.
do_locked-value {ℓ} :
    {A : Type ℓ} (fn : Action A) (env : Env) (b : Board)
    → (do_locked fn env b).1.value ≡ (reply_of (fn env.now (sweep_locked env.now b.st).0).2).value
unfolding do_locked persist_and_publish_locked
do_locked-value fn env b = ground arith

do_locked-error {ℓ} :
    {A : Type ℓ} (fn : Action A) (env : Env) (b : Board) (e : Error)
    → (fn env.now (sweep_locked env.now b.st).0).2 ≡ err e
    → (do_locked fn env b).1.error ≡ some e
unfolding do_locked persist_and_publish_locked
do_locked-error fn env b e h = ground arith

some_eq {ℓ} : {A : Type ℓ} {a b : A} → some a ≡ some b → a ≡ b
some_eq e = cc

-- What a claim that returns a task has written.
claim_action-value :
    (id agent : Str) (lease : ℕ) (now : Time) (st : State) (t : Task)
    → (reply_of (claim_action id agent lease now st).2).value ≡ some t
    → (t0 : Task) × (claimable id agent st ≡ ok t0)
      × (leased agent lease now t0 ≡ t)
      × (lookup id (claim_action id agent lease now st).0.tasks ≡ some t)
unfolding claim_action on_ok log touch_agent_locked put_task
claim_action-value id agent lease now st t h = elim (Result-cases (claimable id agent st)) [
  | inl (e, r) ↦ absurd (cc (rw (r, claim_action, on_ok) at h))
  | inr (t0, r) ↦
      let same : leased agent lease now t0 ≡ t = some_eq (rw (r, claim_action, on_ok) at h) in
      (
        t0,
        r,
        same,
        rw (r, claim_action, on_ok)
            (rw (lookup-insert_self id (leased agent lease now t0) st.tasks) (ap some same)),
      )
]

-- The second agent finds the task held.
claimable-held :
    (id other : Str) (st : State) (t : Task)
    → lookup id st.tasks ≡ some t
    → t.status ≡ in_progress
    → t.assignee ≢ []
    → t.assignee ≢ other
    → is_some t.lease_expires ≡ true
    → claimable id other st ≡ err claimed
unfolding claimable task_locked Status.eq
claimable-held id other st t found s n o l = ground (arith, str_eq_iff t.assignee other)

checked-some {ℓ κ} :
    {I : Type ℓ} {A : Type κ} (i : Result I) (fn : I → Action A) (env : Env) (b : Board) {a : A}
    → (checked i fn env b).1.value ≡ some a
    → (j : I) × (i ≡ ok j) × (checked i fn env b ≡ do_locked (fn j) env b)
checked-some (err e) fn env b h = absurd (cc h)
checked-some (ok j) fn env b h = (j, refl, refl)

after_sweep_live :
    (now : Time) (t : Task) → lease_over now t.lease_expires ≡ false → after_sweep now t ≡ t
unfolding after_sweep has_expired
after_sweep_live now t h = ground arith

-- A closure that refuses leaves the state as the sweep did, and its error is the reply's.
refused_under_do {ℓ} :
    {A : Type ℓ} (fn : Action A) (env : Env) (b : Board) (e : Error)
    → fn env.now (sweep_locked env.now b.st).0 ≡ refused (sweep_locked env.now b.st).0 e
    → ((do_locked fn env b).1.error ≡ some e)
      × ((do_locked fn env b).0.st ≡ (sweep_locked env.now b.st).0)
refused_under_do fn env b e h =
    (do_locked-error fn env b e (ap (λ r. r.2) h), do_locked-st fn env b ∙ ap (λ r. r.0) h)

claim_action-refused :
    (id other : Str) (l : ℕ) (now : Time) (st : State) (e : Error)
    → claimable id other st ≡ err e
    → claim_action id other l now st ≡ refused st e
unfolding claim_action on_ok
claim_action-refused id other l now st e h = rw (h, on_ok)

-- A task in progress under a live lease is refused to every other agent, and stays as it is.
held_excludes :
    (id other : Str) (l : ℕ) (env : Env) (b : Board) (t : Task)
    → IsConsistent b.st
    → lookup id b.st.tasks ≡ some t
    → t.status ≡ in_progress
    → t.assignee ≢ []
    → t.assignee ≢ other
    → is_some t.lease_expires ≡ true
    → lease_over env.now t.lease_expires ≡ false
    → ((do_locked (claim_action id other l) env b).1.error ≡ some claimed)
      × (lookup id (do_locked (claim_action id other l) env b).0.st.tasks ≡ some t)
held_excludes id other l env b t c found s n o some_lease live =
    let kept : lookup id (sweep_locked env.now b.st).0.tasks ≡ some t =
      sweep_locked-lookup env.now b.st id c.tasks_distinct
      ∙ ap (map_option (after_sweep env.now)) found
      ∙ ap some (after_sweep_live env.now t live) in
    let r = refused_under_do (claim_action id other l) env b claimed (
      claim_action-refused id other l env.now _ claimed
        (claimable-held id other _ t kept s n o some_lease)) in
    (r.0, rw r.1 kept)

check_claim-name :
    (agent : Str) (lease : ℤ) (default l : ℕ)
    → check_claim agent lease default ≡ ok l
    → name_re agent ≡ true
unfolding check_claim
check_claim-name agent lease default l h = ground arith

leased_fields :
    (agent : Str) (l : ℕ) (now : Time) (t0 t : Task)
    → leased agent l now t0 ≡ t
    → (t.status ≡ in_progress) × (t.assignee ≡ agent) × (is_some t.lease_expires ≡ true)
unfolding leased
leased_fields agent l now t0 t e = (
  sym (ap (λ u. u.status) e),
  sym (ap (λ u. u.assignee) e),
  sym (ap (λ u. is_some u.lease_expires) e),
)

-- What holds of the board once a claim has returned a task.
record IsHeld (id agent : Str) (t : Task) (b : Board) : Type 0 where
  consistent : IsConsistent b.st
  found : lookup id b.st.tasks ≡ some t
  status_eq : t.status ≡ in_progress
  assignee_eq : t.assignee ≡ agent
  has_lease : is_some t.lease_expires ≡ true
  named : agent ≢ []

claim-IsHeld :
    (id agent : Str) (lease : ℤ) (env : Env) (b : Board) (t : Task)
    → IsConsistent b.st
    → (claim id agent lease env b).1.value ≡ some t
    → IsHeld id agent t (claim id agent lease env b).0
unfolding claim
claim-IsHeld id agent lease env b t c got =
    let (l, valid, e) =
      checked-some (check_claim agent lease b.lease) (λ l. claim_action id agent l) env b got in
    let st = (sweep_locked env.now b.st).0 in
    let named = name_re-ne-nil agent (check_claim-name agent lease b.lease l valid) in
    let value =
      sym (do_locked-value (claim_action id agent l) env b) ∙ ap (λ r. r.1.value) (sym e) ∙ got in
    let (t0, _, same, found) = claim_action-value id agent l env.now st t value in
    let (s, a, h) = leased_fields agent l env.now t0 t same in
    rw e (record {
      consistent =
          do_locked-IsConsistent (claim_action id agent l) env b
            (claim_action-KeepsConsistent id agent l named) c;
      found = rw (do_locked-st (claim_action id agent l) env b) found;
      status_eq = s;
      assignee_eq = a;
      has_lease = h;
      named = named;
    })

-- Once a claim has returned a task, a claim by any other agent made before that lease runs out is
-- answered with ErrClaimed and leaves the task as the first claim wrote it. The second caller's own
-- input is valid, and the board's state was consistent.
pub claim_excludes :
    (id agent other : Str) (lease lease' : ℤ) (env env' : Env) (b : Board) (t : Task) (l' : ℕ)
    → IsConsistent b.st
    → (claim id agent lease env b).1.value ≡ some t
    → agent ≢ other
    → check_claim other lease' (claim id agent lease env b).0.lease ≡ ok l'
    → lease_over env'.now t.lease_expires ≡ false
    → let b' = (claim id agent lease env b).0 in
      ((claim id other lease' env' b').1.error ≡ some claimed)
      × (lookup id (claim id other lease' env' b').0.st.tasks ≡ some t)
unfolding claim
claim_excludes id agent other lease lease' env env' b t l' c got differ valid live =
    let v = claim-IsHeld id agent lease env b t c got in
    let b' = (claim id agent lease env b).0 in
    rw valid (
      held_excludes id other l' env' b' t v.consistent v.found v.status_eq
        (rw v.assignee_eq v.named) (rw v.assignee_eq differ) v.has_lease live)
