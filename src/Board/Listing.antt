-- ===== src/Board/Listing.antt =====
-- board.go: what Tasks lists, and in which order.
use agentboard.Prelude.{
  refl, any, ◌==◌, ==_iff, Bool-cases, ℕ, ◌<◌, ◌≡◌, ◌↔◌, ◌⊎◌, inl, inr, sym, ap, ◌∙◌, Bool, true,
  false, ◌&&◌, Option, none, some, List, [], ◌∷◌, arith, ltb, if◌then◌else◌, Str, str_eq, str_lt,
  str_eq_iff, keep, lookup, values, IsAscending, sort_by-IsAscending, str_lt_total, Member,
  member-sort_by, member-keep, lookup-member, sort_by, member-lookup, DistinctBy,
  sort_by-DistinctBy, keep-DistinctBy, values-DistinctBy,
}
use mathlib.Core.Bool.{false≢true}
use agentboard.Text.{key_re}
use agentboard.Text.TaskId.{id_less, task_id, id_less_asym, id_less-task_id}
use agentboard.Model.Status
use agentboard.Model.Kind
use agentboard.Model.Data.{Task, State}
use agentboard.Board.Types.{Filter}
use agentboard.Board.Queries.{matches, tasks_locked, fits, fits_option, task_less}
use agentboard.Board.Consistency.Rules.{IsConsistent}

-- A field of a filter: nothing is asked for, or exactly this.
abbrev pub IsNamed : Str → Str → Type 0
IsNamed wanted actual = (wanted ≡ []) ⊎ (wanted ≡ actual)

abbrev pub IsChosen {ℓ} : {A : Type ℓ} → Option A → A → Type ℓ
IsChosen wanted actual = (wanted ≡ none) ⊎ (wanted ≡ some actual)

abbrev pub IsWanted : Filter → Task → Type 0
IsWanted f t =
    IsNamed f.project t.project
    × IsChosen f.status t.status
    × IsNamed f.assignee t.assignee
    × IsChosen f.kind t.kind
    × IsNamed f.parent t.parent

-- The one task's project comes before the other's, or they are of one project and the number in its id is the smaller.
abbrev pub Precedes : Task → Task → Type 0
Precedes a b =
    (m : ℕ) × (n : ℕ) × (a.id ≡ task_id a.project m)
    × (b.id ≡ task_id b.project n)
    × ((str_lt a.project b.project ≡ true) ⊎ ((a.project ≡ b.project) × (m < n)))

abbrev pub InOrder : List Task → Type 0
InOrder [] = Unit
InOrder (a ∷ []) = Unit
InOrder (a ∷ (b ∷ rest)) = Precedes a b × InOrder (b ∷ rest)

fits-IsNamed : (wanted actual : Str) → (fits wanted actual ≡ true) ↔ IsNamed wanted actual
fits-IsNamed [] actual = ground arith
fits-IsNamed (c ∷ w) actual = ground (arith, str_eq_iff actual (c ∷ w))

fits_option-IsChosen :
    {A : Type 0} (eq : A → A → Bool) (wanted : Option A) (actual : A)
    → ((a b : A) → (eq a b ≡ true) ↔ (a ≡ b))
    → (fits_option eq wanted actual ≡ true) ↔ IsChosen wanted actual
fits_option-IsChosen eq none actual h = ground arith
fits_option-IsChosen eq (some w) actual h = (
  λ e. inr (ap some (sym ((h actual w).0 e))),
  λ c. elim c [ inl e ↦ absurd (cc) | inr e ↦ (h actual w).1 (sym (some_eq e)) ],
)
  where
    some_eq : {A : Type 0} {a b : A} → some a ≡ some b → a ≡ b
    some_eq e = cc

matches-IsWanted : (f : Filter) (t : Task) → (matches f t ≡ true) ↔ IsWanted f t
unfolding matches
matches-IsWanted f t =
    let k =
      both
        (both
          (both
            (both (fits-IsNamed f.project t.project)
              (fits_option-IsChosen Status.eq f.status t.status Status.eq_iff))
            (fits-IsNamed f.assignee t.assignee))
          (fits_option-IsChosen Kind.eq f.kind t.kind Kind.eq_iff))
        (fits-IsNamed f.parent t.parent) in
    (
      λ e. let ((((p, s), a), i), r) = k.0 e in (p, s, a, i, r),
      λ w. let (p, s, a, i, r) = w in k.1 ((((p, s), a), i), r),
    )
  where
    both :
        {a b : Bool} {A B : Type 0} → (a ≡ true) ↔ A → (b ≡ true) ↔ B → ((a && b) ≡ true) ↔ (A × B)
    both {a} {b} p q = (
      λ e. (p.0 (ground arith), q.0 (ground arith)),
      λ k. let ea = p.1 k.0 in let eb = q.1 k.1 in rw (ea, eb) refl,
    )

adjacent_precede :
    (a b : Task) (m n : ℕ)
    → a.id ≡ task_id a.project m
    → b.id ≡ task_id b.project n
    → key_re a.project ≡ true
    → key_re b.project ≡ true
    → str_eq b.id a.id ≡ false
    → id_less b.id a.id ≡ false
    → Precedes a b
adjacent_precede a b m n ea eb ka kb differ less =
    let compared : (if str_eq b.project a.project then ltb n m else str_lt b.project a.project)
        ≡ false =
      sym (id_less-task_id b.project a.project n m kb ka)
      ∙ ap (λ i. id_less i (task_id a.project m)) (sym eb)
      ∙ ap (id_less b.id) (sym ea)
      ∙ less in
    (
      m,
      n,
      ea,
      eb,
      elim (Bool-cases (str_eq b.project a.project)) [
        | inl same ↦
            let one = (str_eq_iff b.project a.project).0 same in
            let bound : ltb n m ≡ false = rw same at compared in inr (sym one, strict one bound)
        | inr other ↦
            let less : str_lt b.project a.project ≡ false = rw other at compared in
            inl (str_lt_total a.project b.project (str_eq_sym a.project b.project other) less)
      ],
    )
  where
    str_eq_sym : (k l : Str) → str_eq l k ≡ false → str_eq k l ≡ false
    str_eq_sym k l h = ground (arith, str_eq_iff k l, str_eq_iff l k)

    strict : b.project ≡ a.project → ltb n m ≡ false → m < n
    strict one bound = elim (Bool-cases (n == m)) [
      | inl same ↦
          let twice : b.id ≡ a.id =
            eb
            ∙ ap (λ k. task_id k n) one
            ∙ ap (task_id a.project) ((==_iff n m).0 same)
            ∙ sym ea in
          absurd (false≢true (sym differ ∙ (str_eq_iff b.id a.id).1 twice))
      | inr other ↦ ground (arith, bound, other)
    ]

head_apart :
    (a b : Task) (rest : List Task)
    → any (λ t. str_eq t.id a.id) (b ∷ rest) ≡ false
    → str_eq b.id a.id ≡ false
head_apart a b rest h = ground arith

in_order :
    (st : State) (xs : List Task)
    → IsConsistent st
    → ((t : Task) → Member t xs → lookup t.id st.tasks ≡ some t)
    → IsAscending task_less xs
    → DistinctBy (λ t. t.id) xs
    → InOrder xs
in_order st [] c found sorted apart = tt
in_order st (a ∷ []) c found sorted apart = tt
in_order st (a ∷ (b ∷ rest)) c found sorted apart =
    let task_a = c.task_ok a.id a (found a (inl refl)) in
    let task_b = c.task_ok b.id b (found b (inr (inl refl))) in
    let (p, m, in_p, ea, _) = task_a.numbered in
    let (q, n, in_q, eb, _) = task_b.numbered in
    let first =
      adjacent_precede a b m n ea eb (c.project_ok a.project p in_p).key_valid
        (c.project_ok b.project q in_q).key_valid (head_apart a b rest apart.0) sorted.0 in
    (first, in_order st (b ∷ rest) c (λ t i. found t (inr i)) sorted.1 apart.1)

-- For a state that is consistent and a filter, Tasks lists a task exactly if the board has it and each field of the
-- filter is empty or the task's own. The tasks of one project stand together, the projects in the order of their
-- keys; within a project the numbers in the ids rise, as numbers, so that no task is listed twice.
pub tasks_locked_lem :
    (f : Filter) (st : State)
    → IsConsistent st
    → ((t : Task) → Member t (tasks_locked f st) ↔ ((lookup t.id st.tasks ≡ some t) × IsWanted f t))
      × InOrder (tasks_locked f st)
unfolding tasks_locked
tasks_locked_lem f st c =
    let own : (k : Str) (t : Task) → lookup k st.tasks ≡ some t → t.id ≡ k =
      λ k t e. (c.task_ok k t e).id_eq in
    let listed : List Task = keep (matches f) (values st.tasks) in
    let members : (t : Task)
        → Member t (sort_by task_less listed) ↔ ((lookup t.id st.tasks ≡ some t) × IsWanted f t) =
      λ t. (
        (λ i.
            let k =
              (member-keep (matches f) t (values st.tasks)).0
                ((member-sort_by task_less t listed).0 i) in
            (
              member-lookup (λ u. u.id) t st.tasks c.tasks_distinct own k.0,
              (matches-IsWanted f t).0 k.1,
            )),
        (λ k. (member-sort_by task_less t listed).1 (
            (member-keep (matches f) t (values st.tasks)).1
              (lookup-member t.id t st.tasks k.0, (matches-IsWanted f t).1 k.1))),
      ) in
    (
      members,
      in_order st (sort_by task_less listed) c (λ t i. ((members t).0 i).0)
          (sort_by-IsAscending task_less (λ a b. id_less_asym a.id b.id) listed)
          (sort_by-DistinctBy (λ t. t.id) task_less listed
            (keep-DistinctBy (λ t. t.id) (matches f) (values st.tasks)
              (values-DistinctBy (λ t. t.id) st.tasks c.tasks_distinct own))),
    )
