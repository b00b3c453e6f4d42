-- ===== src/Lock/Reads.antt =====
-- lock.go: the reads of AcquireLock and Release, with other processes' turns between them, lead nobody to the Remove of
-- a file that a live process owns.
use agentboard.Prelude.{
  ℕ, ◌≡◌, refl, sym, ap, subst, ◌∙◌, inl, inr, Bool, true, false, ◌&&◌, Option, none, some, ◌==◌,
  ==_iff, Bool-cases, arith,
}
use mathlib.Core.Bool.{false≢true}
use agentboard.Lock.{
  LockFile, checks, seen, failed, World, goes, next_attempt, read_held, check_alive, read_again,
  over, read_own,
}
use agentboard.Lock.Owned.{
  owns, takes_over, Fits, IsOwned, IsExclusive, goes-IsExclusive, next_attempt-idle,
}

retry-IsExclusive :
    (t n : ℕ) (w : World)
    → owns (w.stage t) ≡ false
    → IsExclusive w
    → IsExclusive (goes t (next_attempt n) w)
retry-IsExclusive t n w before h =
    let quiet = next_attempt-idle w.alive n in
    goes-IsExclusive t (next_attempt n) w h before quiet.0 quiet.1

pub read_held-IsExclusive :
    (t n : ℕ) (o : Option LockFile) (w : World)
    → owns (w.stage t) ≡ false
    → IsExclusive w
    → IsExclusive (read_held t n o w)
unfolding read_held takes_over owns
read_held-IsExclusive t n none w before h = retry-IsExclusive t n w before h
read_held-IsExclusive t n (some f) w before h = elim (Bool-cases f.written) [
  | inl full ↦ rw full (goes-IsExclusive t (checks n f.owner) w h before refl refl)
  | inr empty ↦ rw empty (goes-IsExclusive t failed w h before refl refl)
]

pub check_alive-IsExclusive :
    (t n o : ℕ) (w : World)
    → owns (w.stage t) ≡ false
    → IsExclusive w
    → IsExclusive (check_alive t n o w)
unfolding check_alive takes_over owns
check_alive-IsExclusive t n o w before h = elim (Bool-cases (w.alive o)) [
  | inl live ↦ rw live (goes-IsExclusive t failed w h before refl refl)
  | inr dead ↦ rw dead (goes-IsExclusive t (seen n o) w h before refl dead)
]

and_false : (b : Bool) → (b && false) ≡ false
and_false b = ground arith

-- The token is not the dead owner's, since the file's owner lives.
token_differs :
    (f : LockFile) (o : ℕ) (alive : ℕ → Bool)
    → alive f.owner ≡ true
    → alive o ≡ false
    → (f.written && (f.owner == o)) ≡ false
token_differs f o alive lives dead = elim (Bool-cases (f.owner == o)) [
  | inl same ↦ absurd (false≢true (sym dead ∙ ap alive (sym ((==_iff f.owner o).0 same)) ∙ lives))
  | inr other ↦ rw other (and_false f.written)
]

pub read_again-IsExclusive :
    (t n o : ℕ) (file : Option LockFile) (w : World)
    → w.file ≡ file
    → w.alive o ≡ false
    → owns (w.stage t) ≡ false
    → IsExclusive w
    → IsExclusive (read_again t n o file w)
unfolding read_again Fits
read_again-IsExclusive t n o none w e dead before h = retry-IsExclusive t n w before h
read_again-IsExclusive t n o (some f) w e dead before h =
    let fits : IsOwned f w.stage w.alive = subst (λ i. Fits i w.stage w.alive) e h.fits in
    rw (token_differs f o w.alive fits.lives dead) (retry-IsExclusive t n w before h)

-- Release of a lock that is not there any more leaves another's file alone.
pub read_own-IsExclusive :
    (t : ℕ) (file : Option LockFile) (w : World)
    → w.file ≡ file
    → owns (w.stage t) ≡ false
    → IsExclusive w
    → IsExclusive (read_own t file w)
unfolding read_own Fits owns takes_over
read_own-IsExclusive t none w e before h = goes-IsExclusive t over w h before refl refl
read_own-IsExclusive t (some f) w e before h =
    let fits : IsOwned f w.stage w.alive = subst (λ i. Fits i w.stage w.alive) e h.fits in
    elim (Bool-cases (f.owner == t)) [
      | inl same ↦ absurd (
          false≢true (
            sym before ∙ ap (λ u. owns (w.stage u)) (sym ((==_iff f.owner t).0 same)) ∙ fits.owned))
      | inr other ↦ rw (other, and_false f.written) (goes-IsExclusive t over w h before refl refl)
    ]
