-- ===== src/Lock/Releases.antt =====
-- lock.go: Release and SetAddr leave the lock with the one process that has it, or with nobody.
use agentboard.Prelude.{
  ℕ, ◌≡◌, refl, sym, ap, subst, ◌∙◌, inl, inr, Bool, true, false, some, ◌==◌, ==_iff, Bool-cases,
}
use mathlib.Core.Bool.{false≢true}
use agentboard.Lock.{
  LockFile, Stage, idle, trying, exists, checks, seen, stale, writing, holding, releasing, failed,
  over, World, put, goes, read_own, release_at, set_addr,
}
use agentboard.Lock.Owned.{
  owns, takes_over, Fits, IsOwned, IsExclusive, put-all, its_file, keeps-IsOwned,
}
use agentboard.Lock.Reads.{read_own-IsExclusive}

is_holding : Stage → Bool
is_holding holding = true
is_holding _ = false

holding-writing : holding ≡ writing → ⊥
unfolding is_holding
holding-writing k = false≢true (sym (ap is_holding k))

-- A holder's file is written, so Release goes on to remove it.
pub release_at-IsExclusive :
    (s : Stage) (t : ℕ) (w : World) → w.stage t ≡ s → IsExclusive w → IsExclusive (release_at s t w)
unfolding release_at owns takes_over Fits
release_at-IsExclusive holding t w e h =
    let (f, found, own, fits) = its_file t w h (ap owns e) in
    let full = holder_written f own fits in
    subst (λ o. IsExclusive (read_own t o w)) (sym found) (goes_on f found own full fits)
  where
    holder_written : (f : LockFile) → f.owner ≡ t → IsOwned f w.stage w.alive → f.written ≡ true
    holder_written f own fits = elim (Bool-cases f.written) [
      | inl full ↦ full
      | inr empty ↦
          absurd (holding-writing (sym e ∙ ap w.stage (sym own) ∙ fits.held_is_written empty))
    ]

    goes_on :
        (f : LockFile)
        → w.file ≡ some f
        → f.owner ≡ t
        → f.written ≡ true
        → IsOwned f w.stage w.alive
        → IsExclusive (read_own t (some f) w)
    goes_on f found own full fits =
        let same : (f.owner == t) ≡ true = (==_iff f.owner t).1 own in
        let after : IsExclusive (goes t releasing w) = record {
          fits =
              subst (λ o. Fits o (put t releasing w.stage) w.alive) (sym found)
                (keeps-IsOwned t releasing f f w.stage w.alive own own full refl fits);
          no_takeover =
              λ u. put-all (takes_over w.alive) false t u releasing w.stage refl (h.no_takeover u);
        } in
        unfold read_own in rw (full, same) after
release_at-IsExclusive idle t w e h = h
release_at-IsExclusive (trying n) t w e h = h
release_at-IsExclusive (exists n) t w e h = h
release_at-IsExclusive (checks n o) t w e h = h
release_at-IsExclusive (seen n o) t w e h = h
release_at-IsExclusive (stale n o) t w e h = h
release_at-IsExclusive writing t w e h = h
release_at-IsExclusive releasing t w e h = h
release_at-IsExclusive failed t w e h = h
release_at-IsExclusive over t w e h = read_own-IsExclusive t w.file w refl (ap owns e) h

-- The holder's file is replaced by one that is its own, too.
pub set_addr-IsExclusive :
    (t : ℕ) (w : World) → w.stage t ≡ holding → IsExclusive w → IsExclusive (set_addr t w)
unfolding set_addr owns Fits
set_addr-IsExclusive t w e h =
    let (f, found, own, fits) = its_file t w h (ap owns e) in
    record {
      fits = record {
        lives = ap w.alive (sym own) ∙ fits.lives;
        owned = ap owns e;
        only = λ u k. fits.only u k ∙ own;
        held_is_written = λ k. absurd (false≢true (sym k));
      };
      no_takeover = h.no_takeover;
    }
