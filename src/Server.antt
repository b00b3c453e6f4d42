-- ===== src/Server.antt =====
-- auth_server.go and server.go: the handlers of accounts and logins, and the status of an error. A handler takes the body's
-- fields or the cookie's value, and answers with a status, the account it writes, and the session cookie that it sets.
pub mod Logins
use agentboard.Prelude.{
  ℕ, Bool, true, false, not, Option, none, some, [], ◌∷◌, if◌then◌else◌, Str, runes,
}
use agentboard.Password.{Bytes}
use agentboard.Board.Types.{
  Error, not_found, invalid, claimed, not_owner, exists, bad_credentials, corrupt, locked,
  store_failed, Result, ok, err, Reply, Board, Env,
}
use agentboard.Board.Accounts.{PublicUser, normalize_email, authenticate, register, user}
use agentboard.Sessions.Store.{SessionStore, create, validate, invalidate}
use agentboard.Sessions.Limiter.{Failures, allowed, record_failure, record_success}

pub record Server : Type 0 where
  pub board : Board
  pub sessions : SessionStore
  pub logins : Failures

-- `reply` with an error
unfoldable pub status_of : Error → ℕ
status_of not_found = 404
status_of invalid = 400
status_of claimed = 409
status_of not_owner = 409
status_of exists = 409
status_of bad_credentials = 401
status_of corrupt = 500
status_of locked = 500
status_of store_failed = 500

-- The cookie is `some []` where it is cleared.
pub record Response : Type 0 where
  pub status : ℕ
  pub account : Option PublicUser
  pub cookie : Option Str

abbrev pub refusal : ℕ → Response
refusal status = record { status = status; account = none; cookie = none }

-- startSession, and the answer after it.
unfoldable pub answer_session :
    ℕ → PublicUser → SessionStore × Option Str → Server → Server × Response
answer_session status u (sessions, none) s = (record s { sessions = sessions }, refusal 500)
answer_session status u (sessions, some id) s = (
  record s { sessions = sessions },
  record { status = status; account = some u; cookie = some id },
)

-- `random` is what rand.Read gives for the session's id.
unfoldable pub start_session : ℕ → PublicUser → Option Bytes → Env → Server → Server × Response
unfolding create answer_session
start_session status u random env s =
    answer_session status u (create u.email random env.now s.sessions) s

module _ (prf : Str → Bytes → Bytes) where
  -- What handleLogin does with the answer of Authenticate.
  unfoldable pub after_authenticate :
      Str → Option Bytes → Env → Board × Result PublicUser → Server → Server × Response
  unfolding record_failure record_success start_session status_of
  after_authenticate key random env (b, err e) s =
      (record s { board = b; logins = record_failure key env.now s.logins }, refusal (status_of e))
  after_authenticate key random env (b, ok u) s =
      start_session 200 u random env (record s { board = b; logins = record_success key s.logins })

  unfoldable pub handle_login :
      Str → Str → Option Bytes → Option Bytes → Env → Server → Server × Response
  unfolding normalize_email allowed authenticate after_authenticate
  handle_login email password salt random env s =
      let key = normalize_email email in
      let (logins, may) = allowed key env.now s.logins in
      let pruned = record s { logins = logins } in
      if not may
      then (pruned, refusal 429)
      else after_authenticate key random env (authenticate prf email password salt env s.board)
          pruned

  module _ (parse_address : Str → Option Str) where
    abbrev after_register :
        Option Bytes → Env → Board → Reply PublicUser → Server → Server × Response
    after_register random env b r s =
        unfold status_of start_session in
        elim r.error [
          | some e ↦ (record s { board = b }, refusal (status_of e))
          | none ↦ elim r.value [
            | none ↦ (record s { board = b }, refusal 500)
            | some u ↦ start_session 201 u random env (record s { board = b })
          ]
        ]

    unfoldable handle_register :
        Str → Str → Option Bytes → Option Bytes → Env → Server → Server × Response
    unfolding register status_of start_session
    handle_register email password salt random env s =
        let (b, r) = register prf parse_address email password salt env s.board in
        after_register random env b r s

-- The value of the session cookie, if the request has one.
unfoldable handle_logout : Option Str → Server → Server × Response
unfolding invalidate
handle_logout none s = (s, record { status = 200; account = none; cookie = some [] })
handle_logout (some id) s = (
  record s { sessions = invalidate id s.sessions },
  record { status = 200; account = none; cookie = some [] },
)

unfoldable pub current_user : Option Str → Env → Server → SessionStore × Option Str
unfolding validate
current_user none env s = (s.sessions, none)
current_user (some id) env s = validate id env.now s.sessions

unfoldable me_of : Option Str → Server → Response
unfolding user
me_of none s = refusal 401
me_of (some email) s = elim (user email s.board) [
  | none ↦ record { status = 401; account = none; cookie = some [] }
  | some u ↦ record { status = 200; account = some u; cookie = none }
]

unfoldable handle_me : Option Str → Env → Server → Server × Response
unfolding current_user me_of
handle_me cookie env s =
    let (sessions, email) = current_user cookie env s in
    (record s { sessions = sessions }, me_of email (record s { sessions = sessions }))
