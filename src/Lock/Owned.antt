-- ===== src/Lock/Owned.antt =====
-- lock.go: who owns the lock file, and the steps that keep it so.
use agentboard.Prelude.{
  ℕ, ◌+◌, ◌≡◌, refl, sym, ap, subst, ◌∙◌, inl, inr, Bool, true, false, Option, none, some, ltb,
  ◌==◌, ==_iff, Bool-cases, Option-cases,
}
use mathlib.Core.Bool.{false≢true}
use agentboard.Lock.{
  LockFile, Stage, exists, seen, stale, writing, holding, releasing, World, put, goes, next_attempt,
  open_file,
}

-- Whether the process has created the file and not yet removed it.
unfoldable pub owns : Stage → Bool
owns writing = true
owns holding = true
owns releasing = true
owns _ = false

-- Whether the process goes on to remove the file of an owner that lives, or removes one now.
unfoldable pub takes_over : (ℕ → Bool) → Stage → Bool
takes_over alive (seen n o) = alive o
takes_over alive (stale n o) = true
takes_over alive _ = false

-- The file is its live owner's, who alone owns it; without a file nobody does.
pub record IsOwned (f : LockFile) (stage : ℕ → Stage) (alive : ℕ → Bool) : Type 0 where
  pub lives : alive f.owner ≡ true
  pub owned : owns (stage f.owner) ≡ true
  pub only : (t : ℕ) → owns (stage t) ≡ true → t ≡ f.owner
  pub held_is_written : f.written ≡ false → stage f.owner ≡ writing

unfoldable pub Fits : Option LockFile → (ℕ → Stage) → (ℕ → Bool) → Type 0
Fits none stage alive = (t : ℕ) → owns (stage t) ≡ false
Fits (some f) stage alive = IsOwned f stage alive

pub record IsExclusive (w : World) : Type 0 where
  pub fits : Fits w.file w.stage w.alive
  pub no_takeover : (t : ℕ) → takes_over w.alive (w.stage t) ≡ false

-- A property of the changed stages.
pub put-all :
    {A B : Type 0} (g : A → B) (b : B) (t u : ℕ) (a : A) (f : ℕ → A)
    → g a ≡ b
    → g (f u) ≡ b
    → g (put t a f u) ≡ b
put-all g b t u a f h k = elim (Bool-cases (u == t)) [ inl e ↦ rw e h | inr e ↦ rw e k ]

pub put-same : {A : Type 0} (t : ℕ) (a : A) (f : ℕ → A) → put t a f t ≡ a
put-same t a f = let e : (t == t) ≡ true = (==_iff t t).1 refl in rw e refl

pub put-other : {A : Type 0} (t u : ℕ) (a : A) (f : ℕ → A) → (u == t) ≡ false → put t a f u ≡ f u
put-other t u a f e = rw e refl

-- A process that owns nothing stays one that owns nothing.
Fits-goes :
    (o : Option LockFile) (t : ℕ) (s : Stage) (stage : ℕ → Stage) (alive : ℕ → Bool)
    → owns (stage t) ≡ false
    → owns s ≡ false
    → Fits o stage alive
    → Fits o (put t s stage) alive
unfolding Fits
Fits-goes none t s stage alive before after h = λ u. put-all owns false t u s stage after (h u)
Fits-goes (some f) t s stage alive before after h =
    let other : (f.owner == t) ≡ false = apart f.owner t stage h.owned before in
    let same : put t s stage f.owner ≡ stage f.owner = put-other t f.owner s stage other in
    record {
      lives = h.lives;
      owned = ap owns same ∙ h.owned;
      only = λ u k. elim (Bool-cases (u == t)) [
        | inl e ↦ absurd (false≢true (sym after ∙ ap owns (sym (put-at t u s stage e)) ∙ k))
        | inr e ↦ h.only u (ap owns (sym (put-other t u s stage e)) ∙ k)
      ];
      held_is_written = λ k. same ∙ h.held_is_written k;
    }
  where
    put-at : (t u : ℕ) (s : Stage) (stage : ℕ → Stage) → (u == t) ≡ true → put t s stage u ≡ s
    put-at t u s stage e = rw e refl

    apart :
        (u t : ℕ) (stage : ℕ → Stage)
        → owns (stage u) ≡ true
        → owns (stage t) ≡ false
        → (u == t) ≡ false
    apart u t stage h k = elim (Bool-cases (u == t)) [
      | inl e ↦ absurd (false≢true (sym k ∙ ap (λ i. owns (stage i)) (sym ((==_iff u t).0 e)) ∙ h))
      | inr e ↦ e
    ]

pub goes-IsExclusive :
    (t : ℕ) (s : Stage) (w : World)
    → IsExclusive w
    → owns (w.stage t) ≡ false
    → owns s ≡ false
    → takes_over w.alive s ≡ false
    → IsExclusive (goes t s w)
goes-IsExclusive t s w h before after quiet = record {
  fits = Fits-goes w.file t s w.stage w.alive before after h.fits;
  no_takeover = λ u. put-all (takes_over w.alive) false t u s w.stage quiet (h.no_takeover u);
}

pub next_attempt-idle :
    (alive : ℕ → Bool) (n : ℕ)
    → (owns (next_attempt n) ≡ false) × (takes_over alive (next_attempt n) ≡ false)
unfolding owns takes_over
next_attempt-idle alive n = elim (Bool-cases (ltb (n + 1) 3)) [
  | inl e ↦ rw e (refl, refl)
  | inr e ↦ rw e (refl, refl)
]

-- The file is created only where there is none, and then nobody owns one.
pub open_file-IsExclusive :
    (t n : ℕ) (o : Option LockFile) (w : World)
    → w.file ≡ o
    → w.alive t ≡ true
    → owns (w.stage t) ≡ false
    → IsExclusive w
    → IsExclusive (open_file t n o w)
unfolding open_file takes_over owns Fits
open_file-IsExclusive t n (some f) w e live before h =
    goes-IsExclusive t (exists n) w h before refl refl
open_file-IsExclusive t n none w e live before h =
    let nobody : (u : ℕ) → owns (w.stage u) ≡ false =
      subst (λ o. Fits o w.stage w.alive) e h.fits in
    record {
      fits = record {
        lives = live;
        owned = ap owns (put-same t writing w.stage);
        only = λ u k. elim (Bool-cases (u == t)) [
          | inl same ↦ (==_iff u t).0 same
          | inr other ↦ absurd (
              false≢true (sym (nobody u) ∙ ap owns (sym (put-other t u writing w.stage other)) ∙ k))
        ];
        held_is_written = λ k. put-same t writing w.stage;
      };
      no_takeover =
          λ u. put-all (takes_over w.alive) false t u writing w.stage refl (h.no_takeover u);
    }

-- The owner's file, where it owns one.
pub its_file :
    (t : ℕ) (w : World)
    → IsExclusive w
    → owns (w.stage t) ≡ true
    → (f : LockFile) × (w.file ≡ some f) × (f.owner ≡ t) × IsOwned f w.stage w.alive
unfolding Fits
its_file t w h mine = elim (Option-cases w.file) [
  | inl e ↦
      let nobody : (u : ℕ) → owns (w.stage u) ≡ false =
        subst (λ o. Fits o w.stage w.alive) e h.fits in
      absurd (false≢true (sym (nobody t) ∙ mine))
  | inr (f, e) ↦
      let fits : IsOwned f w.stage w.alive = subst (λ o. Fits o w.stage w.alive) e h.fits in
      (f, e, sym (fits.only t mine), fits)
]

-- The owner goes on as the owner, with a file that is written.
pub keeps-IsOwned :
    (t : ℕ) (s : Stage) (f g : LockFile) (stage : ℕ → Stage) (alive : ℕ → Bool)
    → f.owner ≡ t
    → g.owner ≡ t
    → g.written ≡ true
    → owns s ≡ true
    → IsOwned f stage alive
    → IsOwned g (put t s stage) alive
keeps-IsOwned t s f g stage alive e own full mine h = record {
  lives = ap alive (own ∙ sym e) ∙ h.lives;
  owned = ap (λ u. owns (put t s stage u)) own ∙ ap owns (put-same t s stage) ∙ mine;
  only = λ u k. elim (Bool-cases (u == t)) [
    | inl same ↦ (==_iff u t).0 same ∙ sym own
    | inr other ↦ h.only u (ap owns (sym (put-other t u s stage other)) ∙ k) ∙ e ∙ sym own
  ];
  held_is_written = λ k. absurd (false≢true (sym k ∙ full));
}

-- Removing the owner's file leaves nobody with one.
pub removes-Fits :
    (t : ℕ) (s : Stage) (f : LockFile) (stage : ℕ → Stage) (alive : ℕ → Bool)
    → f.owner ≡ t
    → owns s ≡ false
    → IsOwned f stage alive
    → (u : ℕ) → owns (put t s stage u) ≡ false
removes-Fits t s f stage alive e gone h u = elim (Bool-cases (u == t)) [
  | inl same ↦ rw same gone
  | inr other ↦ elim (Bool-cases (owns (stage u))) [
    | inl mine ↦ absurd (false≢true (sym other ∙ (==_iff u t).1 (h.only u mine ∙ e)))
    | inr not_mine ↦ rw (other, not_mine) refl
  ]
]
