-- ===== src/Board/Consistency/Keeps.antt =====
-- Operations that keep a state consistent, and do itself.
use agentboard.Prelude.{Option, ◌≡◌, refl, arith}
use agentboard.Model.Data.{State, Time}
use agentboard.Board.Types.{Result, ok, err, Event, Board, Env}
use agentboard.Board.Do.{Action, do_locked, persist_and_publish_locked}
use agentboard.Board.Leases.{sweep_locked}
use agentboard.Board.Tasks.{checked, on_ok}
use agentboard.Board.Consistency.Rules.{IsConsistent}
use agentboard.Board.Consistency.Parts.{sweep_locked-IsConsistent}

abbrev pub KeepsConsistent {ℓ} : {A : Type ℓ} → Action A → Type 0
KeepsConsistent fn = (now : Time) (st : State) → IsConsistent st → IsConsistent (fn now st).0

-- A check that fails leaves the state alone.
pub on_ok-IsConsistent {ℓ κ} :
    {I : Type ℓ} {A : Type κ} (st : State) (r : Result I) (k : I → State × Option Event × Result A)
    → IsConsistent st
    → ((i : I) → r ≡ ok i → IsConsistent (k i).0)
    → IsConsistent (on_ok st r k).0
unfolding on_ok
on_ok-IsConsistent st (err e) k c h = c
on_ok-IsConsistent st (ok i) k c h = h i refl

pub persist_and_publish_locked-st :
    (env : Env) (ev : Event) (b : Board) → (persist_and_publish_locked env ev b).0.st ≡ b.st
unfolding persist_and_publish_locked
persist_and_publish_locked-st env ev b = ground arith

-- The state of the board after do is the one that the operation left.
pub do_locked-st {ℓ} :
    {A : Type ℓ} (fn : Action A) (env : Env) (b : Board)
    → (do_locked fn env b).0.st ≡ (fn env.now (sweep_locked env.now b.st).0).0
unfolding do_locked
do_locked-st fn env b = ground (arith, persist_and_publish_locked-st env)

pub do_locked-IsConsistent {ℓ} :
    {A : Type ℓ} (fn : Action A) (env : Env) (b : Board)
    → KeepsConsistent fn
    → IsConsistent b.st
    → IsConsistent (do_locked fn env b).0.st
do_locked-IsConsistent fn env b k c =
    rw (do_locked-st fn env b) (k env.now _ (sweep_locked-IsConsistent env.now b.st c))

pub checked-IsConsistent {ℓ κ} :
    {I : Type ℓ} {A : Type κ} (i : Result I) (fn : I → Action A) (env : Env) (b : Board)
    → ((j : I) → i ≡ ok j → KeepsConsistent (fn j))
    → IsConsistent b.st
    → IsConsistent (checked i fn env b).0.st
checked-IsConsistent (err e) fn env b k c = c
checked-IsConsistent (ok j) fn env b k c = do_locked-IsConsistent (fn j) env b (k j refl) c
