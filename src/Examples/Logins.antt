-- ===== src/Examples/Logins.antt =====
-- Sessions and the login limiter at concrete inputs.
use agentboard.Prelude.{
  ◌≡◌, ◌≢◌, refl, true, false, ap, none, some, List, [], ◌∷◌, arith, Str, str_eq, runes, lookup,
}
use agentboard.Model.Data.{Time}
use agentboard.Text.Hex.{encode_hex}
use agentboard.Sessions.Store.{
  Session, SessionStore, new_session_store, create, validate, invalidate, new_session_id,
}
use agentboard.Sessions.Calls.{SessionCall, creates, validates, invalidates, sweeps, answer_all}
use agentboard.Sessions.Validity.{session_lasts}
use agentboard.Sessions.Logout.{logout_is_final, expiry_is_final}
use agentboard.Sessions.Window.{LoginCall, asks, fails, succeeds}

abbrev opened : SessionStore
opened = new_session_store 60

abbrev session_id : Str
session_id = runes "01ff"

abbrev others : List (Time × SessionCall)
others =
    (110, creates (runes "b@x.io") none)
    ∷ (120, sweeps)
    ∷ (130, validates session_id)
    ∷ (140, invalidates (runes "02"))
    ∷ []

is_not_02 : runes "02" ≢ session_id
unfolding str_eq
is_not_02 e = let f : false ≡ true = ap (str_eq session_id) e in cc

named : session_id ≢ []
named e = cc

no_id : new_session_id none ≢ some session_id
unfolding new_session_id
no_id e = cc

created : (create (runes "a@x.io") (some (1 ∷ 255 ∷ [])) 100 opened).1 ≡ some session_id
unfolding create new_session_id encode_hex
created = refl

session_lasts_example :
    (validate session_id 155
      (answer_all others (create (runes "a@x.io") (some (1 ∷ 255 ∷ [])) 100 opened).0)).1
    ≡ some (runes "a@x.io")
unfolding new_session_store
session_lasts_example =
    session_lasts session_id (runes "a@x.io") (some (1 ∷ 255 ∷ [])) 100 155 others opened tt named
      created
      (
        (omega arith, omega arith, no_id),
        (
          (omega arith, omega arith, tt),
          ((omega arith, omega arith, tt), ((omega arith, omega arith, is_not_02), tt)),
        ),
      )
      (omega arith) (omega arith)

abbrev held_session : Session
held_session = record { email = runes "a@x.io"; expires_at = 160 }

abbrev one_session : SessionStore
one_session = record { ttl = 60; by_id = (session_id, held_session) ∷ [] }

found_session : lookup session_id one_session.by_id ≡ some held_session
unfolding lookup str_eq
found_session = refl

logout_is_final_example :
    (validate session_id 150 (answer_all others (invalidate session_id one_session))).1 ≡ none
unfolding lookup
logout_is_final_example =
    logout_is_final session_id 150 others one_session (refl, tt) named (no_id, (tt, (tt, (tt, tt))))

expiry_is_final_example :
    ((validate session_id 161 one_session).1 ≡ none)
    × ((validate session_id 150 (answer_all others (validate session_id 161 one_session).0)).1
        ≡ none)
unfolding lookup
expiry_is_final_example =
    expiry_is_final session_id 161 150 others one_session held_session (refl, tt) found_session
      (omega arith) named (no_id, (tt, (tt, (tt, tt))))

abbrev logins : List (Time × LoginCall)
logins =
    (10, fails (runes "a@x.io"))
    ∷ (20, asks (runes "a@x.io"))
    ∷ (30, succeeds (runes "b@x.io"))
    ∷ []
