-- ===== src/Sessions/Logout.antt =====
-- sessions.go: an ended session stays ended.
use agentboard.Prelude.{
  ℕ, ◌+◌, ◌<◌, ◌≡◌, ◌≢◌, refl, ap, ◌∙◌, true, false, Option, none, some, List, [], ◌∷◌, arith, ltb,
  Str, is_empty, Distinct, lookup, insert, erase, lookup-insert_ne, insert-Distinct,
  lookup-erase_ne, lookup-erase_self, erase-Distinct, All, Option-cases, inl, inr,
}
use agentboard.Model.Data.{Time}
use agentboard.Sessions.Calls.{
  SessionCall, creates, validates, invalidates, sweeps, answer, answer_all, AvoidsId, if_live,
  lookup-sweep_sessions, sweep_sessions-Distinct, str_eq-cases,
}
use agentboard.Sessions.Store.{
  Session, SessionStore, new_session_id, create, validate, invalidate, is_over, sweep,
}

-- No session has the id.
record IsEnded (id : Str) (s : SessionStore) : Type 0 where
  gone : lookup id s.by_id ≡ none
  distinct : Distinct s.by_id

erase-IsEnded :
    (id j : Str) (s : SessionStore)
    → IsEnded id s
    → IsEnded id (record s { by_id = erase j s.by_id })
erase-IsEnded id j s v = record {
  gone = elim (str_eq-cases j id) [
    | inl e ↦ rw e (lookup-erase_self id s.by_id v.distinct)
    | inr ne ↦ lookup-erase_ne j id s.by_id ne ∙ v.gone
  ];
  distinct = erase-Distinct j s.by_id v.distinct;
}

insert-IsEnded :
    (id j : Str) (sess : Session) (s : SessionStore)
    → j ≢ id
    → IsEnded id s
    → IsEnded id (record s { by_id = insert j sess s.by_id })
insert-IsEnded id j sess s ne v = record {
  gone = lookup-insert_ne j id sess s.by_id ne ∙ v.gone;
  distinct = insert-Distinct j sess s.by_id v.distinct;
}

create-IsEnded :
    (id other : Str) (random : Option (List ℕ)) (now : Time) (s : SessionStore)
    → new_session_id random ≢ some id
    → IsEnded id s
    → IsEnded id (create other random now s).0
unfolding create
create-IsEnded id other random now s avoids v = elim (Option-cases (new_session_id random)) [
  | inl e ↦ rw (e, create) v
  | inr (j, e) ↦
      rw (e, create)
        (insert-IsEnded id j (record { email = other; expires_at = now + s.ttl }) s
          (λ q. avoids (e ∙ ap some q)) v)
]

validate-IsEnded :
    (id j : Str) (now : Time) (s : SessionStore) → IsEnded id s → IsEnded id (validate j now s).0
unfolding validate is_over
validate-IsEnded id j now s v = elim (Option-cases (lookup j s.by_id)) [
  | inl e ↦ rw e (ground arith)
  | inr (sess, e) ↦
      let ne : j ≢ id = λ q. cc (ap (λ k. lookup k s.by_id) q, v.gone, e) in
      let erased = erase-IsEnded id j s v in
      let slid = insert-IsEnded id j (record sess { expires_at = now + s.ttl }) s ne v in
      rw e (ground arith)
]

answer-IsEnded :
    (id : Str) (now : Time) (call : SessionCall) (s : SessionStore)
    → AvoidsId id call
    → IsEnded id s
    → IsEnded id (answer now call s)
unfolding answer invalidate sweep
answer-IsEnded id now (creates other random) s avoids v =
    create-IsEnded id other random now s avoids v
answer-IsEnded id now (validates j) s avoids v = validate-IsEnded id j now s v
answer-IsEnded id now (invalidates j) s avoids v =
    let erased = erase-IsEnded id j s v in ground arith
answer-IsEnded id now sweeps s avoids v = record {
  gone = lookup-sweep_sessions now id s.by_id v.distinct ∙ ap (if_live now) v.gone;
  distinct = sweep_sessions-Distinct now s.by_id v.distinct;
}

abbrev pub AvoidsIds : Str → Time × SessionCall → Type 0
AvoidsIds id (now, call) = AvoidsId id call

answer_all-IsEnded :
    (id : Str) (calls : List (Time × SessionCall)) (s : SessionStore)
    → All (AvoidsIds id) calls
    → IsEnded id s
    → IsEnded id (answer_all calls s)
unfolding answer_all
answer_all-IsEnded id [] s avoids v = v
answer_all-IsEnded id ((now, call) ∷ calls) s avoids v =
    answer_all-IsEnded id calls (answer now call s) avoids.1
      (answer-IsEnded id now call s avoids.0 v)

validate_ended :
    (id : Str) (now : Time) (s : SessionStore)
    → lookup id s.by_id ≡ none
    → validate id now s ≡ (s, none)
unfolding validate
validate_ended id now s e = rw e (ground arith)

-- Where each id is listed once, an id that is not empty is never validated again after a logout,
-- whatever calls follow at whatever times, if no new session gets the id.
pub logout_is_final :
    (id : Str) (now : Time) (calls : List (Time × SessionCall)) (s : SessionStore)
    → Distinct s.by_id
    → id ≢ []
    → All (AvoidsIds id) calls
    → (validate id now (answer_all calls (invalidate id s))).1 ≡ none
unfolding invalidate
logout_is_final id now calls s distinct named avoids =
    let ended : IsEnded id (record s { by_id = erase id s.by_id }) = record {
      gone = lookup-erase_self id s.by_id distinct;
      distinct = erase-Distinct id s.by_id distinct;
    } in
    let nonempty : is_empty id ≡ false = ground arith in
    rw nonempty
      (ap (λ r. r.1) (validate_ended id now _ (answer_all-IsEnded id calls _ avoids ended).gone))

validate_late :
    (id : Str) (late : Time) (s : SessionStore) (sess : Session)
    → id ≢ []
    → lookup id s.by_id ≡ some sess
    → sess.expires_at < late
    → validate id late s ≡ (record s { by_id = erase id s.by_id }, none)
unfolding validate is_over
validate_late id late s sess named found over =
    let nonempty : is_empty id ≡ false = ground arith in
    let is_late : ltb sess.expires_at late ≡ true = ground arith in
    rw (nonempty, found, is_late) refl

-- Where each id is listed once, a session that is validated after its expiry is refused, and its id,
-- which is not empty, is refused ever after, if no new session gets it.
pub expiry_is_final :
    (id : Str) (late now : Time) (calls : List (Time × SessionCall)) (s : SessionStore)
    (sess : Session)
    → Distinct s.by_id
    → lookup id s.by_id ≡ some sess
    → sess.expires_at < late
    → id ≢ []
    → All (AvoidsIds id) calls
    → ((validate id late s).1 ≡ none)
      × ((validate id now (answer_all calls (validate id late s).0)).1 ≡ none)
expiry_is_final id late now calls s sess distinct found over named avoids =
    let ended : IsEnded id (record s { by_id = erase id s.by_id }) = record {
      gone = lookup-erase_self id s.by_id distinct;
      distinct = erase-Distinct id s.by_id distinct;
    } in
    rw (validate_late id late s sess named found over) (
      refl,
      ap (λ r. r.1) (validate_ended id now _ (answer_all-IsEnded id calls _ avoids ended).gone),
    )
