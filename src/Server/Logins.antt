-- ===== src/Server/Logins.antt =====
-- auth_server.go: a login that succeeds is remembered.
use agentboard.Prelude.{
  ℕ, ◌+◌, ◌≤◌, ◌≡◌, refl, sym, ap, subst, ◌∙◌, Table, inl, inr, Bool, true, false, not, Option,
  none, some, Option-cases, arith, ltb, if◌then◌else◌, Bool-cases, is_empty, Str, lookup, insert,
  lookup-insert_self,
}
use agentboard.Text.Hex.{encode_hex}
use agentboard.Password
use agentboard.Password.{Bytes, pbkdf2_iterations}
use agentboard.Board.Types.{Error, bad_credentials, Result, ok, err, Board, Env}
use agentboard.Board.Leases.{sweep_locked}
use agentboard.Board.Accounts.{PublicUser, normalize_email, authenticate}
use agentboard.Sessions.Store.{Session, new_session_id, create, validate, is_over}
use agentboard.Sessions.Limiter.{allowed}
use agentboard.Server.{
  Server, Response, refusal, answer_session, start_session, after_authenticate, handle_login,
  current_user,
}

validate-new :
    (id email : Str) (ttl expiry now : ℕ) (m : Table Session)
    → is_empty id ≡ false
    → now ≤ expiry
    → (validate id now (record {
      ttl = ttl;
      by_id = insert id (record { email = email; expires_at = expiry }) m;
    })).1
      ≡ some email
unfolding validate is_over
validate-new id email ttl expiry now m full early =
    let fresh : ltb expiry now ≡ false = ground arith in
    rw (full, lookup-insert_self id (record { email = email; expires_at = expiry }) m, fresh) refl

-- The session that was just created is validated up to its expiry.
created-validate :
    (u : PublicUser) (status : ℕ) (random : Option Bytes) (env later : Env) (s : Server) (id : Str)
    → is_empty id ≡ false
    → later.now ≤ env.now + s.sessions.ttl
    → (start_session status u random env s).1.cookie ≡ some id
    → (current_user (some id) later (start_session status u random env s).0).1 ≡ some u.email
unfolding start_session create answer_session current_user new_session_id
created-validate u status none env later s id full early h = cc
created-validate u status (some bytes) env later s id full early h =
    let same : encode_hex bytes ≡ id = cc in
    subst
      (λ i.
        (validate id later.now (record {
          ttl = s.sessions.ttl;
          by_id =
              insert i (record { email = u.email; expires_at = env.now + s.sessions.ttl })
                s.sessions.by_id;
        })).1
        ≡ some u.email)
      (sym same)
      (validate-new id u.email s.sessions.ttl (env.now + s.sessions.ttl) later.now s.sessions.by_id
        full early)

err-ok : {A : Type 0} {B : Type 0} (e : Error) (a : A) → err e ≡ ok a → B
err-ok e a h = cc

ok-email : (u v : PublicUser) → ok u ≡ ok v → u.email ≡ v.email
ok-email u v h = cc

module _ (prf : Str → Bytes → Bytes) where
  authenticate-email :
      (raw password : Str) (salt : Option Bytes) (env : Env) (b : Board) (u : PublicUser)
      → (authenticate prf raw password salt env b).1 ≡ ok u
      → u.email ≡ normalize_email raw
  unfolding authenticate
  authenticate-email raw password salt env b u h =
      elim (Option-cases (lookup (normalize_email raw) (sweep_locked env.now b.st).0.users)) [
        | inl missing ↦
            let e : (authenticate prf raw password salt env b).1 ≡ err bad_credentials =
              rw (missing, authenticate) refl in
            err-ok bad_credentials u (sym e ∙ h)
        | inr (v, found) ↦
            elim (Bool-cases
              (Password.verify_password prf password v.password_hash v.salt v.iterations)) [
                | inl passes ↦
                    let e : (authenticate prf raw password salt env b).1
                        ≡ ok (record { email = normalize_email raw; created_at = v.created_at }) =
                      rw (found, authenticate) (rw passes refl) in
                    sym (ok-email _ u (sym e ∙ h))
                | inr fails ↦
                    let e : (authenticate prf raw password salt env b).1 ≡ err bad_credentials =
                      rw (found, authenticate) (rw fails refl) in
                    err-ok bad_credentials u (sym e ∙ h)
              ]
      ]

  after_authenticate-remembered :
      (key : Str) (random : Option Bytes) (env later : Env) (b : Board) (r : Result PublicUser)
      (s : Server) (id : Str)
      → ((u : PublicUser) → r ≡ ok u → u.email ≡ key)
      → is_empty id ≡ false
      → later.now ≤ env.now + s.sessions.ttl
      → (after_authenticate prf key random env (b, r) s).1.cookie ≡ some id
      → (current_user (some id) later (after_authenticate prf key random env (b, r) s).0).1
        ≡ some key
  unfolding after_authenticate
  after_authenticate-remembered key random env later b (err e) s id named full early h = cc
  after_authenticate-remembered key random env later b (ok u) s id named full early h =
      created-validate u 200 random env later _ id full early h ∙ ap some (named u refl)

  -- A login that sets a cookie is remembered: up to the ttl later the cookie stands for the email that was
  -- logged in with, normalized.
  pub login_is_remembered :
      (email password : Str) (salt random : Option Bytes) (env later : Env) (s : Server) (id : Str)
      → is_empty id ≡ false
      → later.now ≤ env.now + s.sessions.ttl
      → (handle_login prf email password salt random env s).1.cookie ≡ some id
      → (current_user (some id) later (handle_login prf email password salt random env s).0).1
        ≡ some (normalize_email email)
  unfolding handle_login
  login_is_remembered email password salt random env later s id full early h =
      let key = normalize_email email in
      let (logins, may) = allowed key env.now s.logins in
      let pruned = record s { logins = logins } in
      let r = authenticate prf email password salt env s.board in
      if_allowed may (pruned, refusal 429) (after_authenticate prf key random env r pruned) refl
        (after_authenticate-remembered key random env later r.0 r.1 pruned id
          (authenticate-email email password salt env s.board) full early)
        h
    where
      if_allowed :
          (may : Bool) (x y : Server × Response)
          → x.1.cookie ≡ none
          → (y.1.cookie ≡ some id
              → (current_user (some id) later y.0).1 ≡ some (normalize_email email))
          → (if not may then x else y).1.cookie ≡ some id
          → (current_user (some id) later (if not may then x else y).0).1
            ≡ some (normalize_email email)
      if_allowed true x y refused goes h = goes h
      if_allowed false x y refused goes h = cc
