-- ===== src/Lock/Takeover.antt =====
-- lock.go: the stale lock of a dead process is taken over, by one process alone, or by two at once.
use agentboard.Prelude.{ℕ, ◌≡◌, refl, Bool, true, false, Option, some, List, [], ◌∷◌, ◌==◌, ==_iff}
use agentboard.Lock.{
  LockFile, Stage, idle, holding, open_file, read_held, check_alive, read_again, turn_at, turn,
  Event, acts, perform, run,
}

abbrev pub file_of : ℕ → Option LockFile
file_of o = some (record { owner = o; written = true })

-- Alone: the attempt that finds the file, and the one that creates it.
abbrev pub taking_over : ℕ → List Event
taking_over t = acts t ∷ acts t ∷ acts t ∷ acts t ∷ acts t ∷ acts t ∷ acts t ∷ acts t ∷ []

-- A stale lock: one process that is alone takes it over within two attempts, and the lock file is its own.
pub takes_over_alone :
    (t o : ℕ) (stage : ℕ → Stage) (alive : ℕ → Bool)
    → stage t ≡ idle
    → alive o ≡ false
    → ((run (taking_over t) (record { file = file_of o; stage = stage; alive = alive })).stage t
        ≡ holding)
      × ((run (taking_over t) (record { file = file_of o; stage = stage; alive = alive })).file
          ≡ file_of t)
unfolding run perform turn turn_at open_file read_held check_alive read_again
takes_over_alone t o stage alive rests dead =
    let own : (t == t) ≡ true = (==_iff t t).1 refl in
    let its : (o == o) ≡ true = (==_iff o o).1 refl in
    (simp (rests, own, its, dead) refl, simp (rests, own, its, dead) refl)

-- Both make sure that the file is still the dead owner's before either removes it; the second removes the first's.
abbrev pub racing : ℕ → ℕ → List Event
racing a b =
    acts a
    ∷ acts a
    ∷ acts a
    ∷ acts a
    ∷ acts a
    ∷ acts b
    ∷ acts b
    ∷ acts b
    ∷ acts b
    ∷ acts b
    ∷ acts a
    ∷ acts a
    ∷ acts a
    ∷ acts b
    ∷ acts b
    ∷ acts b
    ∷ []

-- Two live processes that take over one stale lock can both end up with it, though none has died since.
pub stale_lock_races :
    (a b o : ℕ) (stage : ℕ → Stage) (alive : ℕ → Bool)
    → (a == b) ≡ false
    → (b == a) ≡ false
    → stage a ≡ idle
    → stage b ≡ idle
    → alive o ≡ false
    → ((run (racing a b) (record { file = file_of o; stage = stage; alive = alive })).stage a
        ≡ holding)
      × ((run (racing a b) (record { file = file_of o; stage = stage; alive = alive })).stage b
          ≡ holding)
unfolding run perform turn turn_at open_file read_held check_alive read_again
stale_lock_races a b o stage alive ab ba rests_a rests_b dead =
    let own_a : (a == a) ≡ true = (==_iff a a).1 refl in
    let own_b : (b == b) ≡ true = (==_iff b b).1 refl in
    let its : (o == o) ≡ true = (==_iff o o).1 refl in
    (
      simp (rests_a, rests_b, own_a, own_b, ab, ba, its, dead) refl,
      simp (rests_a, rests_b, own_a, own_b, ab, ba, its, dead) refl,
    )
