-- ===== src/Sessions/Window.antt =====
-- sessions.go: what loginLimiter's pruned lists of failures stand for, over histories of its calls.
use agentboard.Prelude.{◌≤◌, ◌≡◌, List, [], ◌∷◌, ◌++◌, if◌then◌else◌, Str, str_eq, keep}
use agentboard.Model.Data.{Time}
use agentboard.Sessions.Limiter.{Failures, is_recent, allowed, record_failure, record_success}

pub data LoginCall : Type 0 where
  asks : Str → LoginCall
  fails : Str → LoginCall
  succeeds : Str → LoginCall

unfoldable pub recorded : Time → LoginCall → Failures → Failures
recorded now (asks email) m = (allowed email now m).0
recorded now (fails email) m = record_failure email now m
recorded now (succeeds email) m = record_success email m

unfoldable pub record_all : List (Time × LoginCall) → Failures → Failures
unfolding recorded
record_all [] m = m
record_all ((now, call) ∷ calls) m = record_all calls (recorded now call m)

-- The failures of an email since its last success, none left out.
abbrev pub noted : Str → Time → LoginCall → List Time → List Time
noted email now (asks j) ts = ts
noted email now (fails j) ts = if str_eq j email then ts ++ now ∷ [] else ts
noted email now (succeeds j) ts = if str_eq j email then [] else ts

abbrev pub note_all : Str → List (Time × LoginCall) → List Time → List Time
note_all email [] ts = ts
note_all email ((now, call) ∷ calls) ts = note_all email calls (noted email now call ts)

-- The clock does not go back: the times rise from `low` to `high`.
abbrev pub Ordered : Time → List (Time × LoginCall) → Time → Type 0
Ordered low [] high = low ≤ high
Ordered low ((now, call) ∷ calls) high = (low ≤ now) × Ordered now calls high

-- From `low` on, the two lists have the same recent failures.
IsSameFrom : Time → List Time → List Time → Type 0
IsSameFrom low xs ys = (now : Time) → low ≤ now → keep (is_recent now) xs ≡ keep (is_recent now) ys
