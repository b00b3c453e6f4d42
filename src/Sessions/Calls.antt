-- ===== src/Sessions/Calls.antt =====
-- sessions.go: histories of calls on the session store, and what a sweep leaves.
use agentboard.Prelude.{
  ℕ, ◌≡◌, ◌≢◌, ◌⊎◌, refl, Option, none, some, List, [], ◌∷◌, arith, if◌then◌else◌, Str, str_eq,
  str_eq_iff, Table, Distinct, lookup, Bool-cases, inl, inr,
}
use agentboard.Model.Data.{Time}
use agentboard.Sessions.Store.{
  Session, SessionStore, new_session_id, create, validate, invalidate, is_over, sweep,
  sweep_sessions,
}

pub data SessionCall : Type 0 where
  creates : Str → Option (List ℕ) → SessionCall
  validates : Str → SessionCall
  invalidates : Str → SessionCall
  sweeps : SessionCall

unfoldable pub answer : Time → SessionCall → SessionStore → SessionStore
answer now (creates email random) s = (create email random now s).0
answer now (validates id) s = (validate id now s).0
answer now (invalidates id) s = invalidate id s
answer now sweeps s = (sweep now s).0

unfoldable pub answer_all : List (Time × SessionCall) → SessionStore → SessionStore
unfolding answer
answer_all [] s = s
answer_all ((now, call) ∷ calls) s = answer_all calls (answer now call s)

-- No new session gets this id: two random ids differ.
abbrev pub AvoidsId : Str → SessionCall → Type 0
AvoidsId id (creates email random) = new_session_id random ≢ some id
AvoidsId id _ = Unit

abbrev pub if_live : Time → Option Session → Option Session
if_live now none = none
if_live now (some sess) = if is_over now sess then none else some sess

-- A sweep removes the sessions that are over, and no other.
pub lookup-sweep_sessions :
    (now : Time) (id : Str) (m : Table Session)
    → Distinct m
    → lookup id (sweep_sessions now m).0 ≡ if_live now (lookup id m)
unfolding sweep_sessions lookup
lookup-sweep_sessions now id [] d = refl
lookup-sweep_sessions now id ((j, sess) ∷ m) d =
    ground (arith, lookup-sweep_sessions now id m d.1, str_eq_iff j id)

pub sweep_sessions-Distinct :
    (now : Time) (m : Table Session) → Distinct m → Distinct (sweep_sessions now m).0
unfolding sweep_sessions
sweep_sessions-Distinct now [] d = tt
sweep_sessions-Distinct now ((j, sess) ∷ m) d =
    ground (arith, sweep_sessions-Distinct now m d.1, lookup-sweep_sessions now j m d.1)

pub str_eq-cases : (a b : Str) → (a ≡ b) ⊎ (a ≢ b)
str_eq-cases a b = elim (Bool-cases (str_eq a b)) [
  | inl e ↦ inl ((str_eq_iff a b).0 e)
  | inr e ↦ inr (λ q. absurd (cc (e, (str_eq_iff a b).1 q)))
]
