-- ===== src/Board/Accounts.antt =====
-- auth.go and login.go: Register, Authenticate, User and the upgrade of an old hash. HMAC-SHA256
-- (`prf`) and net/mail.ParseAddress (`parse_address`, the address or nothing) are parameters.
use agentboard.Prelude.{
  ℕ, Bool, false, not, ◌&&◌, ◌||◌, Option, none, some, [], ltb, ◌==◌, if◌then◌else◌, is_empty,
  is_some, any, Str, runes, str_eq, lookup, insert,
}
use agentboard.Text.{byte_len, trim_space, to_lower, cut}
use agentboard.Password
use agentboard.Password.{Bytes, pbkdf2_iterations}
use agentboard.Model.Data.{Time, User, State}
use agentboard.Board.Types.{
  Result, ok, err, ◌>>=◌, ◌>>◌, refuse_if, invalid, exists, bad_credentials, store_failed, Reply,
  EventType, Board, Env,
}
use agentboard.Board.Inputs.{system_actor}
use agentboard.Board.Leases.{log, sweep_locked}
use agentboard.Board.Do.{event, Action, do_locked}
use agentboard.Board.Tasks.{on_ok, checked}

abbrev pub min_password_length : ℕ
min_password_length = 8

abbrev pub max_password_length : ℕ
max_password_length = 256

abbrev pub max_email_length : ℕ
max_email_length = 254

pub record PublicUser : Type 0 where
  pub email : Str
  pub created_at : Time

abbrev pub public_user : User → PublicUser
public_user u = record { email = u.email; created_at = u.created_at }

unfoldable pub normalize_email : Str → Str
normalize_email s = to_lower (trim_space s)

abbrev has_at : Str → Bool
has_at email = any (λ c. c == b'@') email

unfoldable pub validate_password : Str → Result (Unit {0})
validate_password pw =
    refuse_if (ltb (byte_len pw) min_password_length || ltb max_password_length (byte_len pw))
      invalid

unfoldable pub put_user : Str → User → State → State
put_user email u st = record st { users = insert email u st.users }

-- A password's hash, its salt and the work factor.
pub record Credential : Type 0 where
  pub hash : Bytes
  pub salt : Bytes
  pub iterations : ℕ

abbrev pub new_user : Str → Credential → Time → User
new_user email cred now = record {
  email = email;
  password_hash = cred.hash;
  salt = cred.salt;
  iterations = cred.iterations;
  created_at = now;
  updated_at = now;
}

unfoldable pub register_action : Str → Credential → Action PublicUser
register_action email cred now st =
    on_ok st (refuse_if (is_some (lookup email st.users)) exists) λ _. (
      log now system_actor [] (runes "user_registered") email
          (put_user email (new_user email cred now) st),
      some (event EventType.user []),
      ok (public_user (new_user email cred now)),
    )

abbrev pub upgraded : Credential → Time → User → User
upgraded cred now u = record u {
  password_hash = cred.hash;
  salt = cred.salt;
  iterations = cred.iterations;
  updated_at = now;
}

-- The account may be gone by now; then nothing happens.
unfoldable pub rehash_action : Str → Credential → Action (Unit {0})
rehash_action email cred now st = elim (lookup email st.users) [
  | none ↦ (st, none, ok tt)
  | some u ↦ (
    log now system_actor [] (runes "user_rehash") email (put_user email (upgraded cred now u) st),
    some (event EventType.user []),
    ok tt,
  )
]

unfoldable pub user : Str → Board → Option PublicUser
unfolding normalize_email
user raw b = elim (lookup (normalize_email raw) b.st.users) [
  | none ↦ none
  | some u ↦ some (public_user u)
]

module _ (prf : Str → Bytes → Bytes) where
  -- `none` is an error of the random source.
  abbrev pub credential : Str → Option Bytes → Result Credential
  credential password none = err store_failed
  credential password (some salt) = ok (record {
    hash = Password.hash_password prf password salt;
    salt = salt;
    iterations = pbkdf2_iterations;
  })

  unfoldable pub rehash : Str → Str → Option Bytes → Env → Board → Board
  unfolding rehash_action
  rehash email password salt env b = elim (credential password salt) [
    | err e ↦ b
    | ok cred ↦ (do_locked (rehash_action email cred) env b).0
  ]

  -- The account as it stands under the lock is checked outside of it. The sweep of this call is
  -- neither saved nor published.
  unfoldable pub authenticate : Str → Str → Option Bytes → Env → Board → Board × Result PublicUser
  authenticate raw password salt env b =
      let email = normalize_email raw in
      let b' = record b { st = (sweep_locked env.now b.st).0 } in
      elim (lookup email b'.st.users) [
        | none ↦ (b', err bad_credentials)
        | some u ↦
            if not (Password.verify_password prf password u.password_hash u.salt u.iterations)
            then (b', err bad_credentials)
            else (
              if ltb u.iterations pbkdf2_iterations then rehash email password salt env b' else b',
              ok (record { email = email; created_at = u.created_at }),
            )
      ]

module _ (parse_address : Str → Option Str) where
  abbrev parses_to_itself : Str → Bool
  parses_to_itself email = elim (parse_address email) [ none ↦ false | some a ↦ str_eq a email ]

  unfoldable pub validate_email : Str → Board → Result Str
  unfolding normalize_email
  validate_email raw b = do
    let email = normalize_email raw
    refuse_if (is_empty email || ltb max_email_length (byte_len email)) invalid
    refuse_if (not (parses_to_itself email)) invalid
    let domains = b.allowed_email_domains
    let domain = (cut b'@' email).1
    refuse_if (not (is_empty domains) && (not (has_at email) || not (any (str_eq domain) domains)))
        invalid
    ok email

module _ (prf : Str → Bytes → Bytes) (parse_address : Str → Option Str) where
  unfoldable pub check_account : Str → Str → Option Bytes → Board → Result (Str × Credential)
  unfolding validate_email validate_password
  check_account raw password salt b = do
    email ← validate_email parse_address raw b
    validate_password password
    cred ← credential prf password salt
    ok (email, cred)

  unfoldable pub register : Str → Str → Option Bytes → Env → Board → Board × Reply PublicUser
  unfolding check_account register_action
  register raw password salt env b =
      checked (check_account raw password salt b) (λ i. register_action i.0 i.1) env b
