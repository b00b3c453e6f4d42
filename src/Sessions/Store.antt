-- ===== src/Sessions/Store.antt =====
-- sessions.go: sessionStore. rand.Read hands in the 32 bytes of an id, or `none` if it fails.
use agentboard.Text.Hex.{encode_hex}
use agentboard.Prelude.{
  ℕ, suc, ◌+◌, Bool, Option, none, some, List, [], ◌∷◌, ltb, if◌then◌else◌, Str, is_empty, Table,
  lookup, insert, erase, length,
}
use agentboard.Model.Data.{Time}

abbrev pub default_session_ttl : ℕ
default_session_ttl = 86_400_000_000_000

pub record Session : Type 0 where
  pub email : Str
  pub expires_at : Time

pub record SessionStore : Type 0 where
  pub ttl : ℕ
  pub by_id : Table Session

unfoldable pub new_session_store : ℕ → SessionStore
new_session_store ttl = record {
  ttl = (if ltb 0 ttl then ttl else default_session_ttl);
  by_id = [];
}

unfoldable pub new_session_id : Option (List ℕ) → Option Str
new_session_id none = none
new_session_id (some bytes) = some (encode_hex bytes)

unfoldable pub create : Str → Option (List ℕ) → Time → SessionStore → SessionStore × Option Str
create email random now s = elim (new_session_id random) [
  | none ↦ (s, none)
  | some id ↦ (
    record s { by_id = insert id (record { email = email; expires_at = now + s.ttl }) s.by_id },
    some id,
  )
]

-- `now.After(sess.expiresAt)`
unfoldable pub is_over : Time → Session → Bool
is_over now sess = ltb sess.expires_at now

-- The email of a live session, whose expiry slides forward.
unfoldable pub validate : Str → Time → SessionStore → SessionStore × Option Str
unfolding is_over
validate id now s = if is_empty id then (s, none) else elim (lookup id s.by_id) [
  | none ↦ (s, none)
  | some sess ↦ if is_over now sess then (record s { by_id = erase id s.by_id }, none) else (
    record s { by_id = insert id (record sess { expires_at = now + s.ttl }) s.by_id },
    some sess.email,
  )
]

unfoldable pub invalidate : Str → SessionStore → SessionStore
invalidate id s = if is_empty id then s else record s { by_id = erase id s.by_id }

-- The sessions that a sweep leaves, and how many it removes.
unfoldable pub sweep_sessions : Time → Table Session → Table Session × ℕ
unfolding is_over
sweep_sessions now [] = ([], 0)
sweep_sessions now ((id, sess) ∷ m) =
    let (left, n) = sweep_sessions now m in
    if is_over now sess then (left, suc n) else ((id, sess) ∷ left, n)

unfoldable pub sweep : Time → SessionStore → SessionStore × ℕ
sweep now s = let (left, n) = sweep_sessions now s.by_id in (record s { by_id = left }, n)

unfoldable pub count : SessionStore → ℕ
count s = length s.by_id
