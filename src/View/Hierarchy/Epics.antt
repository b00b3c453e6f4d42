-- ===== src/View/Hierarchy/Epics.antt =====
-- internal/view/view.go: on a consistent board the walk to the epic ends before its bound.
use agentboard.Prelude.{
  ℕ, zero, suc, ◌<◌, ◌≡◌, ◌≢◌, ◌↔◌, refl, sym, ap, ◌∙◌, inl, inr, Bool, true, false, Option, none,
  some, Option-cases, [], ◌∷◌, arith, if◌then◌else◌, Bool-cases, is_empty, Str, str_eq, str_eq_iff,
  Table, lookup, insert, lookup-insert, Distinct, values,
}
use mathlib.Core.Bool.{false≢true}
use agentboard.Model.Kind
use agentboard.Model.Kind.{Kind, epic, story, task, unknown}
use agentboard.Model.Data.{Task, State}
use agentboard.Board.Consistency.Rules.{HasParent, IsConsistent}
use agentboard.View.Hierarchy.{max_depth, index_from, index, on_parent, epic_walk, epic_in, epic_of}

-- `t` is the epic with the id `e`, or its parent is under that epic.
pub data IsUnder (tasks : Table Task) (e : Str) : Task → Type 0 where
  itself : {t : Task} → t.kind ≡ epic → t.id ≡ e → IsUnder tasks e t
  above :
      {t : Task} (p : Task)
      → t.kind ≢ epic
      → t.parent ≢ []
      → lookup t.parent tasks ≡ some p
      → IsUnder tasks e p
      → IsUnder tasks e t

first_of : Option Task → Option Task → Option Task
first_of (some t) o = some t
first_of none o = o

-- The index finds each task under its id.
lookup-index_from :
    (k : Str) (acc m : Table Task)
    → Distinct m
    → ((id : Str) (t : Task) → lookup id m ≡ some t → t.id ≡ id)
    → lookup k (index_from acc (values m)) ≡ first_of (lookup k m) (lookup k acc)
unfolding lookup index_from first_of
lookup-index_from k acc [] d ids = refl
lookup-index_from k acc ((j, w) ∷ m) d ids =
    let ih = lookup-index_from k (insert w.id w acc) m d.1 (λ id t h. ids id t (later id t h)) in
    let own : w.id ≡ j = ids j w (first_found (str_eq j j) ((str_eq_iff j j).1 refl)) in
    ih ∙ elim (Bool-cases (str_eq j k)) [
      | inl same ↦
          let e = (str_eq_iff j k).0 same in
          let gone : lookup k m ≡ none = ap (λ i. lookup i m) (sym e) ∙ d.0 in
          rw (gone, same, lookup-insert w.id k w acc, own, same) refl
      | inr differ ↦ rw (differ, lookup-insert w.id k w acc, own, differ) refl
    ]
  where
    first_found : (b : Bool) → b ≡ true → (if b then some w else lookup j m) ≡ some w
    first_found b h = rw h refl

    no_value : {A : Type 0} (t : Task) → none ≡ some t → A
    no_value t h = cc

    later :
        (id : Str) (t : Task)
        → lookup id m ≡ some t
        → (if str_eq j id then some w else lookup id m) ≡ some t
    later id t h = elim (Bool-cases (str_eq j id)) [
      | inl same ↦
          let e = (str_eq_iff j id).0 same in no_value t (sym d.0 ∙ ap (λ i. lookup i m) e ∙ h)
      | inr differ ↦ rw differ h
    ]

above_once :
    (tasks : Table Task) (n : ℕ) (t p : Task)
    → t.kind ≢ epic
    → t.parent ≢ []
    → lookup t.parent tasks ≡ some p
    → epic_walk (suc n) tasks t ≡ epic_walk n tasks p
unfolding epic_walk
above_once tasks n t p kind parent found =
    rw
      (
        not_true (Kind.eq t.kind epic) (λ h. kind ((Kind.eq_iff t.kind epic).0 h)),
        not_empty t.parent parent,
        found,
      )
      refl
  where
    not_true : (b : Bool) → (b ≡ true → ⊥) → b ≡ false
    not_true true h = absurd (h refl)
    not_true false h = refl

    not_empty : (s : Str) → s ≢ [] → is_empty s ≡ false
    not_empty [] h = absurd (h refl)
    not_empty (c ∷ s) h = refl

itself_once :
    (tasks : Table Task) (n : ℕ) (t : Task) → t.kind ≡ epic → epic_walk (suc n) tasks t ≡ t.id
unfolding epic_walk
itself_once tasks n t kind = rw ((Kind.eq_iff t.kind epic).1 kind) refl

lower :
    (p q : Task) (m n : ℕ)
    → some p ≡ some q
    → Kind.level p.kind < m
    → m < suc n
    → Kind.level q.kind < n
lower p q m n e h k =
    let l : p ≡ q = cc in let same = ap (λ (t : Task). Kind.level t.kind) l in omega arith

-- A task's level is more than its parent's, so as many turns as levels are enough.
walk_finds :
    (tasks : Table Task) (e : Str) (n : ℕ) (t : Task)
    → ((id : Str) (u : Task) → lookup id tasks ≡ some u → HasParent tasks u)
    → HasParent tasks t
    → Kind.level t.kind < n
    → IsUnder tasks e t
    → epic_walk n tasks t ≡ e
walk_finds tasks e zero t all has lt u = absurd (omega arith)
walk_finds tasks e (suc n) t all has lt (itself kind id) = itself_once tasks n t kind ∙ id
walk_finds tasks e (suc n) t all has lt (above p kind parent found under) = elim has [
  | inl top ↦ absurd (parent top)
  | inr (pt, there, same, higher) ↦
      let one_parent : some pt ≡ some p = sym there ∙ found in
      let level : Kind.level p.kind < n = lower pt p (Kind.level t.kind) n one_parent higher lt in
      above_once tasks n t p kind parent found
      ∙ walk_finds tasks e n p all (all t.parent p found) level under
]

below_once :
    (tasks : Table Task) (n : ℕ) (t : Task)
    → Kind.eq t.kind epic ≡ false
    → epic_walk (suc n) tasks t
      ≡ (if is_empty t.parent then [] else on_parent (lookup t.parent tasks) (epic_walk n tasks))
unfolding epic_walk
below_once tasks n t h = rw h refl

walk_zero : (tasks : Table Task) (t : Task) → epic_walk zero tasks t ≡ []
unfolding epic_walk
walk_zero tasks t = refl

walk_sound :
    (tasks : Table Task) (e : Str) (n : ℕ) (t : Task)
    → e ≢ []
    → epic_walk n tasks t ≡ e
    → IsUnder tasks e t
walk_sound tasks e zero t ne h = absurd (ne (sym h ∙ walk_zero tasks t))
walk_sound tasks e (suc n) t ne h = elim (Bool-cases (Kind.eq t.kind epic)) [
  | inl top ↦
      let k = (Kind.eq_iff t.kind epic).0 top in itself k (sym (itself_once tasks n t k) ∙ h)
  | inr below ↦ elim (Bool-cases (is_empty t.parent)) [
    | inl no_parent ↦ absurd (ne (sym h ∙ below_once tasks n t below ∙ rw no_parent refl))
    | inr parent ↦ elim (Option-cases (lookup t.parent tasks)) [
      | inl missing ↦ absurd (ne (sym h ∙ below_once tasks n t below ∙ rw (parent, missing) refl))
      | inr (p, found) ↦
          above p (λ k. differs t.kind below k) (λ k. full t.parent parent k) found
            (walk_sound tasks e n p ne
              (sym (below_once tasks n t below ∙ rw (parent, found) refl) ∙ h))
    ]
  ]
]
  where
    differs : (k : Kind) → Kind.eq k epic ≡ false → k ≡ epic → ⊥
    differs k h e = false≢true (sym h ∙ (Kind.eq_iff k epic).1 e)

    full : (s : Str) → is_empty s ≡ false → s ≡ [] → ⊥
    full s h e = false≢true (sym h ∙ ap is_empty e)

walk_ext :
    (a b : Table Task) (n : ℕ) (t : Task)
    → ((k : Str) → lookup k a ≡ lookup k b)
    → epic_walk n a t ≡ epic_walk n b t
unfolding epic_walk
walk_ext a b zero t h = refl
walk_ext a b (suc n) t h = rw (h t.parent) (
    ap (λ up. if Kind.eq t.kind epic then t.id else if is_empty t.parent then [] else up)
      (same_up (lookup t.parent b) (λ p. walk_ext a b n p h)))
  where
    same_up :
        (o : Option Task)
        → ((p : Task) → epic_walk n a p ≡ epic_walk n b p)
        → on_parent o (epic_walk n a) ≡ on_parent o (epic_walk n b)
    same_up none h = refl
    same_up (some p) h = h p

lookup-index :
    (k : Str) (st : State)
    → IsConsistent st
    → lookup k (index (values st.tasks)) ≡ lookup k st.tasks
unfolding index first_of lookup
lookup-index k st c =
    lookup-index_from k [] st.tasks c.tasks_distinct (λ id t h. (c.task_ok id t h).id_eq)
    ∙ nothing_before (lookup k st.tasks)
  where
    nothing_before : (o : Option Task) → first_of o none ≡ o
    nothing_before none = refl
    nothing_before (some t) = refl

level-lt : (k : Kind) → Kind.level k < max_depth
unfolding Kind.level
level-lt epic = omega arith
level-lt story = omega arith
level-lt task = omega arith
level-lt (unknown s) = omega arith

-- For a task of a consistent board, the epic that the view shows is the one that the task is under: the bound on the
-- walk cuts none short.
pub epic_of_iff :
    (st : State) (id e : Str) (t : Task)
    → IsConsistent st
    → lookup id st.tasks ≡ some t
    → e ≢ []
    → (epic_of (values st.tasks) t ≡ e) ↔ IsUnder st.tasks e t
unfolding epic_of epic_in
epic_of_iff st id e t c found ne =
    let by_id = index (values st.tasks) in
    let same = walk_ext by_id st.tasks max_depth t (λ k. lookup-index k st c) in
    (
      λ h. walk_sound st.tasks e max_depth t ne (sym same ∙ h),
      λ u.
          same
          ∙ walk_finds st.tasks e max_depth t (λ i v h. (c.task_ok i v h).parent)
              (c.task_ok id t found).parent (level-lt t.kind) u,
    )
