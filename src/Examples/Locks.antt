-- ===== src/Examples/Locks.antt =====
-- Processes at one data directory, where one exits between the reads of another, or has died with the lock.
use agentboard.Prelude.{ℕ, ◌≡◌, refl, true, false, List, [], ◌∷◌, ◌==◌, not, Bool, arith}
use agentboard.Lock.{
  Stage, idle, holding, Event, acts, releases, sets_addr, dies, run, perform, turn, turn_at,
  release, release_at, set_addr, open_file, read_held, check_alive, read_again, read_own, unlocked,
}
use agentboard.Lock.Owned.{owns}
use agentboard.Lock.Exclusive.{IsAllowed, AllAllowed, lock_excludes}
use agentboard.Lock.Takeover.{file_of, taking_over, takes_over_alone, racing, stale_lock_races}

-- The second reads the lock file of the first, which sets its address, releases the lock and exits before the second
-- asks whether it is alive; the third has the lock when the second reads the file again, and its token is another.
abbrev events : List Event
events =
    acts 1
    ∷ acts 2
    ∷ acts 1
    ∷ acts 1
    ∷ sets_addr 1
    ∷ acts 2
    ∷ acts 2
    ∷ releases 1
    ∷ acts 1
    ∷ dies 1
    ∷ acts 2
    ∷ acts 3
    ∷ acts 3
    ∷ acts 3
    ∷ acts 2
    ∷ acts 2
    ∷ []

all-AllAllowed : AllAllowed events unlocked
unfolding AllAllowed IsAllowed perform turn turn_at release release_at set_addr open_file read_held
    check_alive read_again read_own owns
all-AllAllowed = (
  refl,
  (
    refl,
    (
      refl,
      (
        refl,
        (
          refl,
          (
            refl,
            (refl, (refl, (refl, (refl, (refl, (refl, (refl, (refl, (refl, (refl, tt)))))))))),
          ),
        ),
      ),
    ),
  ),
)

owned : owns ((run events unlocked).stage 3) ≡ true
unfolding owns run perform turn turn_at release release_at set_addr open_file read_held check_alive
    read_again read_own
owned = refl

lock_excludes_example : owns ((run events unlocked).stage 2) ≡ false
lock_excludes_example = lock_excludes events 3 2 all-AllAllowed (λ e. omega arith) owned

abbrev stages : ℕ → Stage
stages t = idle

abbrev living : ℕ → Bool
living t = not (t == 3)

takes_over_alone_example :
    ((run (taking_over 1) (record { file = file_of 3; stage = stages; alive = living })).stage 1
      ≡ holding)
    × ((run (taking_over 1) (record { file = file_of 3; stage = stages; alive = living })).file
        ≡ file_of 1)
takes_over_alone_example = takes_over_alone 1 3 stages living refl refl

stale_lock_races_example :
    ((run (racing 1 2) (record { file = file_of 3; stage = stages; alive = living })).stage 1
      ≡ holding)
    × ((run (racing 1 2) (record { file = file_of 3; stage = stages; alive = living })).stage 2
        ≡ holding)
stale_lock_races_example = stale_lock_races 1 2 3 stages living refl refl refl refl refl
