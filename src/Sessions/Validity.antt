-- ===== src/Sessions/Validity.antt =====
-- sessions.go: how long a session can be validated, over histories of calls on the session store.
use agentboard.Prelude.{
  ℕ, ◌+◌, ◌≤◌, ◌≡◌, ◌≢◌, refl, ap, ◌∙◌, false, Option, some, List, [], ◌∷◌, arith, ltb, Str,
  is_empty, Distinct, lookup, insert, erase, lookup-insert_self, lookup-insert_ne, insert-Distinct,
  lookup-erase_ne, erase-Distinct, All, Option-cases, inl, inr,
}
use agentboard.Model.Data.{Time}
use agentboard.Sessions.Calls.{
  SessionCall, creates, validates, invalidates, sweeps, answer, answer_all, AvoidsId,
  lookup-sweep_sessions, sweep_sessions-Distinct, str_eq-cases,
}
use agentboard.Sessions.Store.{
  Session, SessionStore, new_session_id, create, validate, invalidate, is_over, sweep,
}

-- The call comes between these times and does not end the session.
abbrev pub SparesSession : Str → Time → Time → Time × SessionCall → Type 0
SparesSession id low high (now, invalidates j) = (low ≤ now) × (now ≤ high) × (j ≢ id)
SparesSession id low high (now, call) = (low ≤ now) × (now ≤ high) × AvoidsId id call

-- The session's email, and that it lasts until `high` at least.
record IsAlive (id email : Str) (high : Time) (s : SessionStore) : Type 0 where
  sess : Session
  found : lookup id s.by_id ≡ some sess
  email_eq : sess.email ≡ email
  lasts : high ≤ sess.expires_at
  distinct : Distinct s.by_id

some_eq {ℓ} : {A : Type ℓ} {a b : A} → some a ≡ some b → a ≡ b
some_eq e = cc

validate-ttl : (id : Str) (now : Time) (s : SessionStore) → (validate id now s).0.ttl ≡ s.ttl
unfolding validate
validate-ttl id now s = ground arith

create-IsAlive :
    (id email other : Str) (random : Option (List ℕ)) (now high : Time) (s : SessionStore)
    → new_session_id random ≢ some id
    → IsAlive id email high s
    → IsAlive id email high (create other random now s).0
unfolding create
create-IsAlive id email other random now high s avoids v =
    elim (Option-cases (new_session_id random)) [
      | inl e ↦ rw (e, create) v
      | inr (j, e) ↦
          let fresh : Session = record { email = other; expires_at = now + s.ttl } in
          rw (e, create)
            (record {
              sess = v.sess;
              found = lookup-insert_ne j id fresh s.by_id (λ q. avoids (e ∙ ap some q)) ∙ v.found;
              email_eq = v.email_eq;
              lasts = v.lasts;
              distinct = insert-Distinct j fresh s.by_id v.distinct;
            })
    ]

-- A session that is not over is given its email, and lasts `ttl` more.
validate_self :
    (id email : Str) (now high : Time) (s : SessionStore)
    → id ≢ []
    → now ≤ high
    → high ≤ now + s.ttl
    → IsAlive id email high s
    → ((validate id now s).1 ≡ some email) × IsAlive id email high (validate id now s).0
unfolding validate is_over
validate_self id email now high s named early ttl v =
    let slid = record v.sess { expires_at = now + s.ttl } in
    let open_yet : ltb v.sess.expires_at now ≡ false = let l = v.lasts in ground arith in
    let nonempty : is_empty id ≡ false = ground arith in
    rw (nonempty, v.found, open_yet)
      (
        ap some v.email_eq,
        record {
          sess = slid;
          found = lookup-insert_self id slid s.by_id;
          email_eq = v.email_eq;
          lasts = ttl;
          distinct = insert-Distinct id slid s.by_id v.distinct;
        },
      )

erase-IsAlive :
    (id j email : Str) (high : Time) (s : SessionStore)
    → j ≢ id
    → IsAlive id email high s
    → IsAlive id email high (record s { by_id = erase j s.by_id })
erase-IsAlive id j email high s ne v = record {
  sess = v.sess;
  found = lookup-erase_ne j id s.by_id ne ∙ v.found;
  email_eq = v.email_eq;
  lasts = v.lasts;
  distinct = erase-Distinct j s.by_id v.distinct;
}

insert-IsAlive :
    (id j email : Str) (sess : Session) (high : Time) (s : SessionStore)
    → j ≢ id
    → IsAlive id email high s
    → IsAlive id email high (record s { by_id = insert j sess s.by_id })
insert-IsAlive id j email sess high s ne v = record {
  sess = v.sess;
  found = lookup-insert_ne j id sess s.by_id ne ∙ v.found;
  email_eq = v.email_eq;
  lasts = v.lasts;
  distinct = insert-Distinct j sess s.by_id v.distinct;
}

validate_other :
    (id j email : Str) (now high : Time) (s : SessionStore)
    → j ≢ id
    → IsAlive id email high s
    → IsAlive id email high (validate j now s).0
unfolding validate is_over
validate_other id j email now high s ne v = elim (Option-cases (lookup j s.by_id)) [
  | inl e ↦ rw e (ground arith)
  | inr (sess, e) ↦
      let erased = erase-IsAlive id j email high s ne v in
      let slid = insert-IsAlive id j email (record sess { expires_at = now + s.ttl }) high s ne v in
      rw e (ground arith)
]

sweep-IsAlive :
    (id email : Str) (now high : Time) (s : SessionStore)
    → now ≤ high
    → IsAlive id email high s
    → IsAlive id email high (sweep now s).0
unfolding sweep is_over
sweep-IsAlive id email now high s early v =
    let open_yet : ltb v.sess.expires_at now ≡ false = let l = v.lasts in ground arith in
    record {
      sess = v.sess;
      found = lookup-sweep_sessions now id s.by_id v.distinct ∙ rw (v.found, open_yet) refl;
      email_eq = v.email_eq;
      lasts = v.lasts;
      distinct = sweep_sessions-Distinct now s.by_id v.distinct;
    }

answer-ttl : (now : Time) (call : SessionCall) (s : SessionStore) → (answer now call s).ttl ≡ s.ttl
unfolding answer create invalidate sweep
answer-ttl now (creates email random) s = elim (Option-cases (new_session_id random)) [
  | inl e ↦ rw (e, create, answer) refl
  | inr (j, e) ↦ rw (e, create, answer) refl
]
answer-ttl now (validates id) s = validate-ttl id now s
answer-ttl now (invalidates id) s = ground arith
answer-ttl now sweeps s = refl

answer-IsAlive :
    (id email : Str) (low high now : Time) (call : SessionCall) (s : SessionStore)
    → id ≢ []
    → high ≤ low + s.ttl
    → SparesSession id low high (now, call)
    → IsAlive id email high s
    → IsAlive id email high (answer now call s)
unfolding answer invalidate
answer-IsAlive id email low high now (creates other random) s named ttl spares v =
    create-IsAlive id email other random now high s spares.2 v
answer-IsAlive id email low high now (validates j) s named ttl spares v = elim (str_eq-cases j id) [
  | inl e ↦
      rw e (validate_self id email now high s named spares.1 (let l = spares.0 in omega arith) v).1
  | inr ne ↦ validate_other id j email now high s ne v
]
answer-IsAlive id email low high now (invalidates j) s named ttl spares v =
    let erased = erase-IsAlive id j email high s spares.2 v in ground arith
answer-IsAlive id email low high now sweeps s named ttl spares v =
    sweep-IsAlive id email now high s spares.1 v

answer_all-IsAlive :
    (id email : Str) (low high : Time) (calls : List (Time × SessionCall)) (s : SessionStore)
    → id ≢ []
    → high ≤ low + s.ttl
    → All (SparesSession id low high) calls
    → IsAlive id email high s
    → (high ≤ low + (answer_all calls s).ttl) × IsAlive id email high (answer_all calls s)
unfolding answer_all
answer_all-IsAlive id email low high [] s named ttl spares v = (ttl, v)
answer_all-IsAlive id email low high ((now, call) ∷ calls) s named ttl spares v =
    answer_all-IsAlive id email low high calls (answer now call s) named
      (rw (answer-ttl now call s) ttl) spares.1
      (answer-IsAlive id email low high now call s named ttl spares.0 v)

-- What create leaves of the session that it makes.
created-IsAlive :
    (id email : Str) (random : Option (List ℕ)) (low : Time) (s : SessionStore)
    → Distinct s.by_id
    → (create email random low s).1 ≡ some id
    → IsAlive id email (low + s.ttl) (create email random low s).0
unfolding create
created-IsAlive id email random low s distinct made = elim (Option-cases (new_session_id random)) [
  | inl e ↦ absurd (cc (rw (e, create) at made))
  | inr (j, e) ↦
      let fresh : Session = record { email = email; expires_at = low + s.ttl } in
      let same : j ≡ id = some_eq (rw (e, create) at made) in
      rw (e, create)
        (record {
          sess = fresh;
          found = rw same (lookup-insert_self id fresh s.by_id);
          email_eq = refl;
          lasts = omega arith;
          distinct = insert-Distinct j fresh s.by_id distinct;
        })
]

created-ttl :
    (email : Str) (random : Option (List ℕ)) (low : Time) (s : SessionStore)
    → low + s.ttl ≤ low + (create email random low s).0.ttl
unfolding answer
created-ttl email random low s = rw (answer-ttl low (creates email random) s) (omega arith)

-- Where each id is listed once: a session that is created at `low` and gets an id that is not empty is validated, with its email, at
-- any time from `low` to `low + ttl`, whatever calls come at such times, if none of them ends this
-- session and no new session gets its id.
pub session_lasts :
    (id email : Str) (random : Option (List ℕ)) (low now : Time) (calls : List (Time × SessionCall))
    (s : SessionStore)
    → Distinct s.by_id
    → id ≢ []
    → (create email random low s).1 ≡ some id
    → All (SparesSession id low (low + s.ttl)) calls
    → low ≤ now
    → now ≤ low + s.ttl
    → (validate id now (answer_all calls (create email random low s).0)).1 ≡ some email
session_lasts id email random low now calls s distinct named made spares late early =
    let v = created-IsAlive id email random low s distinct made in
    let (kept, w) =
      answer_all-IsAlive id email low (low + s.ttl) calls (create email random low s).0 named
        (created-ttl email random low s) spares v in
    (validate_self id email now (low + s.ttl) _ named early (omega arith) w).0
