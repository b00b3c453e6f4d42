-- ===== src/Examples/Servers.antt =====
-- A login on a server with one account.
use agentboard.Prelude.{◌≡◌, refl, none, some, [], ◌∷◌, runes, lookup, str_eq, arith}
use agentboard.Text.{to_lower, trim_space}
use agentboard.Text.Hex.{encode_hex}
use agentboard.Board.Leases.{sweep_locked}
use agentboard.Password
use agentboard.Password.{Bytes}
use agentboard.Model.Data.{User, new_state}
use agentboard.Board.Accounts.{normalize_email, authenticate}
use agentboard.Sessions.Store.{create, new_session_id}
use agentboard.Sessions.Limiter.{allowed, failures_of}
use agentboard.Server.{
  Server, answer_session, start_session, after_authenticate, handle_login, current_user,
}
use agentboard.Server.Logins.{login_is_remembered}
use agentboard.Examples.Data.{at, fresh_board, toy_prf}

abbrev ann : User
ann = record {
  email = runes "ann@example.org";
  password_hash = Password.pbkdf2_sha256 toy_prf (runes "secret") (1 ∷ []) 1 32;
  salt = 1 ∷ [];
  iterations = 1;
  created_at = 10;
  updated_at = 10;
}

abbrev server : Server
server = record {
  board = record fresh_board {
    st = record new_state { users = (runes "ann@example.org", ann) ∷ [] };
  };
  sessions = record { ttl = 100; by_id = [] };
  logins = [];
}

cookie_set :
    (handle_login toy_prf
      (runes " Ann@example.org")
      (runes "secret")
      none
      (some (171 ∷ []))
      (at 50)
      server).1.cookie
    ≡ some (runes "ab")
unfolding handle_login allowed failures_of authenticate after_authenticate start_session create
    answer_session new_session_id lookup sweep_locked new_state str_eq to_lower trim_space
    Password.verify_password Password.pbkdf2_sha256 encode_hex
cookie_set = refl

login_is_remembered_example :
    (current_user
      (some (runes "ab"))
      (at 150)
      (handle_login toy_prf
        (runes " Ann@example.org")
        (runes "secret")
        none
        (some (171 ∷ []))
        (at 50)
        server).0).1
    ≡ some (normalize_email (runes " Ann@example.org"))
login_is_remembered_example =
    login_is_remembered toy_prf (runes " Ann@example.org") (runes "secret") none (some (171 ∷ []))
      (at 50) (at 150) server (runes "ab") refl (omega arith) cookie_set
