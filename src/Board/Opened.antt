-- ===== src/Board/Opened.antt =====
-- board.go: a board that Open returns, over calls and saves.
use agentboard.Prelude.{◌≡◌, sym, ap, ◌∙◌, inl, inr, false, none}
use agentboard.Model.Data.{State}
use agentboard.Board.Types.{Result, ok, err, Result-cases, ◌>>=◌, SaveMode, async, Board}
use agentboard.Board.Open.{Options, save_mode_of, open_board}
use agentboard.Board.WriteBehind.{SaveSteps, IsTracked, clean_is_saved}

ok_eq {ℓ} : {A : Type ℓ} {a b : A} → ok a ≡ ok b → a ≡ b
ok_eq e = cc

-- A board as Open returns it has nothing unsaved.
open_board_fields :
    (o : Options) (loaded : Result State) (b : Board)
    → open_board o loaded ≡ ok b
    → (b.closed ≡ false) × (b.store ≡ b.st)
unfolding open_board
open_board_fields o (err e) b h = absurd (no_board (save_mode_of o.save_mode) h)
  where
    no_board : (m : Result SaveMode) → ¬ ((m >>= λ _. err e) ≡ ok b)
    no_board (err x) q = cc
    no_board (ok x) q = cc
open_board_fields o (ok st) b h = elim (Result-cases (save_mode_of o.save_mode)) [
  | inl (e, r) ↦ absurd (cc (rw (r, open_board) at h))
  | inr (m, r) ↦
      let same = ok_eq (rw (r, open_board) at h) in
      (sym (ap (λ c. c.closed) same), sym (ap (λ c. c.store) same) ∙ ap (λ c. c.st) same)
]

-- Once Open has returned a board in the background mode, and calls through do, sweeps and the critical
-- sections of saves have come in any order, a board with no unsaved changes and no save under way has its state in the
-- Store.
pub opened_clean_is_saved :
    (o : Options) (loaded : Result State) (b b' : Board)
    → open_board o loaded ≡ ok b
    → b.mode ≡ async
    → SaveSteps (b, none) (b', none)
    → b'.dirty ≡ false
    → b'.store ≡ b'.st
opened_clean_is_saved o loaded b b' opened background steps clean =
    let (open_yet, settled) = open_board_fields o loaded b opened in
    let tracked : IsTracked (b, none) = record {
      background = background;
      open_yet = open_yet;
      tracked = inr settled;
    } in
    clean_is_saved b' tracked steps clean
