-- ===== src/Lock/Exclusive.antt =====
-- lock.go: while no process dies with the lock, at most one has it.
use agentboard.Prelude.{
  ℕ, ◌≡◌, ◌≢◌, refl, sym, ap, subst, ◌∙◌, inl, inr, Bool, true, false, Option, none, some, List, [],
  ◌∷◌, ◌==◌, ==_iff, Bool-cases,
}
use mathlib.Core.Bool.{false≢true}
use agentboard.Lock.{
  LockFile, Stage, idle, trying, exists, checks, seen, stale, writing, holding, releasing, failed,
  over, World, put, writes_to, turn_at, turn, release, set_addr, Event, acts, releases, sets_addr,
  dies, perform, run, unlocked,
}
use agentboard.Lock.Owned.{
  owns, takes_over, Fits, IsOwned, IsExclusive, put-all, put-same, put-other, goes-IsExclusive,
  open_file-IsExclusive, its_file, keeps-IsOwned, removes-Fits,
}
use agentboard.Lock.Reads.{read_held-IsExclusive, check_alive-IsExclusive, read_again-IsExclusive}
use agentboard.Lock.Releases.{release_at-IsExclusive, set_addr-IsExclusive}

turn_at-IsExclusive :
    (s : Stage) (t : ℕ) (w : World)
    → w.stage t ≡ s
    → w.alive t ≡ true
    → IsExclusive w
    → IsExclusive (turn_at s t w)
unfolding turn_at owns takes_over Fits
turn_at-IsExclusive idle t w e live h = goes-IsExclusive t (trying 0) w h (ap owns e) refl refl
turn_at-IsExclusive (trying n) t w e live h =
    open_file-IsExclusive t n w.file w refl live (ap owns e) h
turn_at-IsExclusive (exists n) t w e live h = read_held-IsExclusive t n w.file w (ap owns e) h
turn_at-IsExclusive (checks n o) t w e live h = check_alive-IsExclusive t n o w (ap owns e) h
turn_at-IsExclusive (seen n o) t w e live h =
    let dead : w.alive o ≡ false = ap (takes_over w.alive) (sym e) ∙ h.no_takeover t in
    read_again-IsExclusive t n o w.file w refl dead (ap owns e) h
turn_at-IsExclusive (stale n o) t w e live h =
    absurd (false≢true (sym (h.no_takeover t) ∙ ap (takes_over w.alive) e))
turn_at-IsExclusive writing t w e live h =
    let (f, found, own, fits) = its_file t w h (ap owns e) in
    record {
      fits =
          subst (λ o. Fits (writes_to t o) (put t holding w.stage) w.alive) (sym found)
            (its_own f own fits);
      no_takeover =
          λ u. put-all (takes_over w.alive) false t u holding w.stage refl (h.no_takeover u);
    }
  where
    its_own :
        (f : LockFile)
        → f.owner ≡ t
        → IsOwned f w.stage w.alive
        → Fits (writes_to t (some f)) (put t holding w.stage) w.alive
    its_own f own fits =
        let same : (f.owner == t) ≡ true = (==_iff f.owner t).1 own in
        rw same (
          keeps-IsOwned t holding f (record f { written = true }) w.stage w.alive own own refl refl
            fits)
turn_at-IsExclusive releasing t w e live h =
    let (f, found, own, fits) = its_file t w h (ap owns e) in
    record {
      fits = removes-Fits t over f w.stage w.alive own refl fits;
      no_takeover = λ u. put-all (takes_over w.alive) false t u over w.stage refl (h.no_takeover u);
    }
turn_at-IsExclusive holding t w e live h = h
turn_at-IsExclusive failed t w e live h = h
turn_at-IsExclusive over t w e live h = h

-- A process that acts is alive, one that sets its address holds the lock, and one that dies owns nothing.
unfoldable pub IsAllowed : Event → World → Type 0
IsAllowed (acts t) w = w.alive t ≡ true
IsAllowed (releases t) w = w.alive t ≡ true
IsAllowed (sets_addr t) w = w.stage t ≡ holding
IsAllowed (dies t) w = owns (w.stage t) ≡ false

unfoldable pub AllAllowed : List Event → World → Type 0
unfolding IsAllowed perform
AllAllowed [] w = Unit
AllAllowed (e ∷ es) w = IsAllowed e w × AllAllowed es (perform e w)

dies-Fits :
    (o : Option LockFile) (t : ℕ) (stage : ℕ → Stage) (alive : ℕ → Bool)
    → owns (stage t) ≡ false
    → Fits o stage alive
    → Fits o stage (put t false alive)
unfolding Fits
dies-Fits none t stage alive quiet h = h
dies-Fits (some f) t stage alive quiet h = record {
  lives = elim (Bool-cases (f.owner == t)) [
    | inl same ↦ absurd (
        false≢true
          (sym quiet ∙ ap (λ u. owns (stage u)) (sym ((==_iff f.owner t).0 same)) ∙ h.owned))
    | inr other ↦ put-other t f.owner false alive other ∙ h.lives
  ];
  owned = h.owned;
  only = h.only;
  held_is_written = h.held_is_written;
}

-- A process that is dead stays dead.
dies-quiet :
    (t : ℕ) (alive : ℕ → Bool) (s : Stage)
    → takes_over alive s ≡ false
    → takes_over (put t false alive) s ≡ false
unfolding takes_over
dies-quiet t alive (seen n o) h = put-all (λ b. b) false t o false alive refl h
dies-quiet t alive (stale n o) h = h
dies-quiet t alive idle h = h
dies-quiet t alive (trying n) h = h
dies-quiet t alive (exists n) h = h
dies-quiet t alive (checks n o) h = h
dies-quiet t alive writing h = h
dies-quiet t alive holding h = h
dies-quiet t alive releasing h = h
dies-quiet t alive failed h = h
dies-quiet t alive over h = h

perform-IsExclusive :
    (e : Event) (w : World) → IsAllowed e w → IsExclusive w → IsExclusive (perform e w)
unfolding IsAllowed perform turn release set_addr takes_over owns
perform-IsExclusive (acts t) w live h = turn_at-IsExclusive (w.stage t) t w refl live h
perform-IsExclusive (releases t) w live h = release_at-IsExclusive (w.stage t) t w refl h
perform-IsExclusive (sets_addr t) w holds h = set_addr-IsExclusive t w holds h
perform-IsExclusive (dies t) w quiet h =
    let after = goes-IsExclusive t over w h quiet refl refl in
    record {
      fits =
          dies-Fits w.file t (put t over w.stage) w.alive (ap owns (put-same t over w.stage))
            after.fits;
      no_takeover = λ u. dies-quiet t w.alive (put t over w.stage u) (after.no_takeover u);
    }

run-IsExclusive :
    (es : List Event) (w : World) → AllAllowed es w → IsExclusive w → IsExclusive (run es w)
unfolding AllAllowed run
run-IsExclusive [] w ok h = h
run-IsExclusive (e ∷ es) w ok h =
    run-IsExclusive es (perform e w) ok.1 (perform-IsExclusive e w ok.0 h)

unlocked-IsExclusive : IsExclusive unlocked
unfolding Fits owns takes_over
unlocked-IsExclusive = record { fits = λ t. refl; no_takeover = λ t. refl }

-- From a directory without a lock file, in any interleaving of the processes' system calls in which none dies that
-- has created the lock file and not removed it, and SetAddr is called only by a process that holds the lock, two
-- processes never own the lock at once.
pub lock_excludes :
    (es : List Event) (t u : ℕ)
    → AllAllowed es unlocked
    → t ≢ u
    → owns ((run es unlocked).stage t) ≡ true
    → owns ((run es unlocked).stage u) ≡ false
lock_excludes es t u ok differ mine = elim (Bool-cases (owns ((run es unlocked).stage u))) [
  | inr free ↦ free
  | inl yours ↦
      let h = run-IsExclusive es unlocked ok unlocked-IsExclusive in
      let (f, found, own, fits) = its_file t (run es unlocked) h mine in
      absurd (differ (sym own ∙ sym (fits.only u yours)))
]
