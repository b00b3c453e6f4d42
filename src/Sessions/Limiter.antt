-- ===== src/Sessions/Limiter.antt =====
-- sessions.go: loginLimiter. A time after `now - window` is one with `now < t + window`.
use agentboard.Prelude.{
  ℕ, ◌+◌, Bool, none, some, List, [], ◌∷◌, ◌++◌, ltb, if◌then◌else◌, Str, Table, lookup, insert,
  erase, length, keep, is_empty,
}
use agentboard.Model.Data.{Time}

abbrev pub login_max_failures : ℕ
login_max_failures = 10

abbrev pub login_window : ℕ
login_window = 900_000_000_000

abbrev pub Failures : Type 0
Failures = Table (List Time)

-- A missing key is the empty slice.
unfoldable pub failures_of : Str → Failures → List Time
failures_of email m = elim (lookup email m) [ none ↦ [] | some ts ↦ ts ]

unfoldable pub is_recent : Time → Time → Bool
is_recent now t = ltb now (t + login_window)

-- Whether the email may try, with the old failures pruned.
unfoldable pub allowed : Str → Time → Failures → Failures × Bool
unfolding failures_of
allowed email now m =
    let kept = keep (is_recent now) (failures_of email m) in
    (
      if is_empty kept then erase email m else insert email kept m,
      ltb (length kept) login_max_failures,
    )

unfoldable pub record_failure : Str → Time → Failures → Failures
unfolding failures_of
record_failure email now m = insert email (failures_of email m ++ now ∷ []) m

unfoldable pub record_success : Str → Failures → Failures
record_success email m = erase email m
