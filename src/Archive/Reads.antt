-- ===== src/Archive/Reads.antt =====
-- archive.go: what ReadArchive and MergeActivity give: each id once, in ascending order.
use agentboard.Prelude.{
  ℕ, ◌≡◌, refl, sym, ap, ◌∙◌, inl, inr, Bool, true, false, not, ◌&&◌, ◌||◌, List, [], ◌∷◌, ◌++◌,
  arith, leb, ◌==◌, ==_iff, Bool-cases, any, any-sort_by, insert_by, sort_by, IsAscending,
}
use agentboard.Model.Data.{Activity}
use agentboard.Archive.{unseen, by_id, merge_activity}

abbrev pub has_id : ℕ → Activity → Bool
has_id i a = a.id == i

-- Each id is less than the next.
abbrev pub IsIncreasing : List Activity → Type 0
IsIncreasing xs = IsAscending (λ a b. leb a.id b.id) xs

any-unseen :
    (i : ℕ) (seen : List ℕ) (xs : List Activity)
    → any (has_id i) (unseen seen xs) ≡ (not (any (λ j. j == i) seen) && any (has_id i) xs)
unfolding unseen
any-unseen i seen [] = ground arith
any-unseen i seen (a ∷ xs) = elim (Bool-cases (any (λ j. j == a.id) seen)) [
  | inl old ↦ rw old (
      old_id i a.id seen (any (has_id i) xs) (any (has_id i) (unseen seen xs)) old
        (any-unseen i seen xs))
  | inr new ↦
      rw new (rw (any-unseen i (a.id ∷ seen) xs) (new_id i a.id seen (any (has_id i) xs) new))
]
  where
    same_test :
        (i j : ℕ) (seen : List ℕ)
        → (j == i) ≡ true
        → any (λ k. k == j) seen ≡ any (λ k. k == i) seen
    same_test i j seen h = ap (λ n. any (λ k. k == n) seen) ((==_iff j i).0 h)

    old_id :
        (i j : ℕ) (seen : List ℕ) (b c : Bool)
        → any (λ k. k == j) seen ≡ true
        → c ≡ (not (any (λ k. k == i) seen) && b)
        → c ≡ (not (any (λ k. k == i) seen) && ((j == i) || b))
    old_id i j seen b c old e = elim (Bool-cases (j == i)) [
      | inl same ↦ let k = same_test i j seen same in ground arith
      | inr differ ↦ rw differ e
    ]

    new_id :
        (i j : ℕ) (seen : List ℕ) (b : Bool)
        → any (λ k. k == j) seen ≡ false
        → ((j == i) || (not ((j == i) || any (λ k. k == i) seen) && b))
          ≡ (not (any (λ k. k == i) seen) && ((j == i) || b))
    new_id i j seen b new = elim (Bool-cases (j == i)) [
      | inl same ↦ let k = same_test i j seen same in rw (same, sym k, new) refl
      | inr differ ↦ rw differ refl
    ]

any-unseen-of :
    (p : Activity → Bool) (seen : List ℕ) (xs : List Activity)
    → any p (unseen seen xs) ≡ true
    → any p xs ≡ true
unfolding unseen
any-unseen-of p seen [] h = h
any-unseen-of p seen (a ∷ xs) h = elim (Bool-cases (any (λ j. j == a.id) seen)) [
  | inl old ↦ ground (arith, any-unseen-of p seen xs)
  | inr new ↦ ground (arith, any-unseen-of p (a.id ∷ seen) xs)
]

DistinctIds : List Activity → Type 0
DistinctIds [] = Unit
DistinctIds (a ∷ xs) = (any (has_id a.id) xs ≡ false) × DistinctIds xs

unseen-DistinctIds : (seen : List ℕ) (xs : List Activity) → DistinctIds (unseen seen xs)
unfolding unseen DistinctIds
unseen-DistinctIds seen [] = tt
unseen-DistinctIds seen (a ∷ xs) = elim (Bool-cases (any (λ j. j == a.id) seen)) [
  | inl old ↦ rw old (unseen-DistinctIds seen xs)
  | inr new ↦
      rw new (ground (arith, any-unseen a.id (a.id ∷ seen) xs), unseen-DistinctIds (a.id ∷ seen) xs)
]

insert_by-IsIncreasing :
    (a : Activity) (xs : List Activity)
    → any (has_id a.id) xs ≡ false
    → IsIncreasing xs
    → IsIncreasing (insert_by by_id a xs)
insert_by-IsIncreasing a [] d h = tt
insert_by-IsIncreasing a (x ∷ []) d h = ground arith
insert_by-IsIncreasing a (x ∷ (y ∷ rest)) d h =
    ground (arith, insert_by-IsIncreasing a (y ∷ rest) (ground arith) h.1)

sort_by-IsIncreasing : (xs : List Activity) → DistinctIds xs → IsIncreasing (sort_by by_id xs)
unfolding DistinctIds
sort_by-IsIncreasing [] d = tt
sort_by-IsIncreasing (x ∷ xs) d =
    insert_by-IsIncreasing x (sort_by by_id xs) (any-sort_by (has_id x.id) by_id xs ∙ d.0)
      (sort_by-IsIncreasing xs d.1)

-- The list has the ids of `xs`, each once and in order, and no entry but those of `xs`.
pub record IsReadingOf (xs out : List Activity) : Type 0 where
  pub same_ids : (i : ℕ) → any (has_id i) out ≡ any (has_id i) xs
  pub none_made_up : (p : Activity → Bool) → any p out ≡ true → any p xs ≡ true
  pub increasing : IsIncreasing out

pub sorted-IsReadingOf : (xs : List Activity) → IsReadingOf xs (sort_by by_id (unseen [] xs))
sorted-IsReadingOf xs = record {
  same_ids = λ i. any-sort_by (has_id i) by_id (unseen [] xs) ∙ any-unseen i [] xs;
  none_made_up = λ p h. any-unseen-of p [] xs (sym (any-sort_by p by_id (unseen [] xs)) ∙ h);
  increasing = sort_by-IsIncreasing (unseen [] xs) (unseen-DistinctIds [] xs);
}

-- The merge has the archive's ids and the live log's, each once and in ascending order, and only entries of the two.
pub merge_activity-IsReadingOf :
    (archived live : List Activity) → IsReadingOf (archived ++ live) (merge_activity archived live)
unfolding merge_activity
merge_activity-IsReadingOf archived live = sorted-IsReadingOf (archived ++ live)
