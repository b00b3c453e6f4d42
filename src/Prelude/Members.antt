-- ===== src/Prelude/Members.antt =====
-- Membership as a relation, and lists with distinct names, under keep, sort_by and values.
use mathlib.Core.Path.{◌≡◌, refl, ◌∙◌}
use mathlib.Core.Logic.{◌↔◌, ◌⊎◌, inl, inr}
use mathlib.Core.Bool.{Bool, true, false}
use mathlib.Core.Option.{some, none}
use mathlib.Core.List.{List, [], ◌∷◌}
use native.Mathlib.Omega.{arith}
use agentboard.Prelude.Tests.{Bool-cases}
use agentboard.Prelude.Bytes.{Str, str_eq, str_eq_iff}
use agentboard.Prelude.Lists.{insert_by, sort_by, keep, any, any-insert_by, any-sort_by}
use agentboard.Prelude.Maps.{Table, lookup, values, Distinct}

module _ {A : Type 0} where
  abbrev pub Member : A → List A → Type 0
  Member a [] = ⊥
  Member a (x ∷ xs) = (x ≡ a) ⊎ Member a xs

  member-insert_by :
      (less : A → A → Bool) (a b : A) (xs : List A)
      → Member b (insert_by less a xs) ↔ ((a ≡ b) ⊎ Member b xs)
  member-insert_by less a b [] = ground arith
  member-insert_by less a b (x ∷ xs) = ground (arith, member-insert_by less a b xs)

  pub member-sort_by :
      (less : A → A → Bool) (b : A) (xs : List A) → Member b (sort_by less xs) ↔ Member b xs
  member-sort_by less b [] = ground arith
  member-sort_by less b (x ∷ xs) =
      ground (arith, member-insert_by less x b (sort_by less xs), member-sort_by less b xs)

  pub member-keep :
      (p : A → Bool) (b : A) (xs : List A) → Member b (keep p xs) ↔ (Member b xs × (p b ≡ true))
  member-keep p b [] = ground arith
  member-keep p b (x ∷ xs) = elim (Bool-cases (p x)) [
    | inl e ↦ rw e (ground (arith, e, member-keep p b xs))
    | inr e ↦ rw e (ground (arith, e, member-keep p b xs))
  ]

module _ {V : Type 0} where
  pub lookup-member : (k : Str) (v : V) (m : Table V) → lookup k m ≡ some v → Member v (values m)
  unfolding lookup
  lookup-member k v [] h = cc
  lookup-member k v ((j, w) ∷ m) h = elim (Bool-cases (str_eq j k)) [
    | inl e ↦ inl (ground (arith, e))
    | inr e ↦ inr (lookup-member k v m (ground (arith, e)))
  ]

  -- In a table whose values know their keys, every value is found under its own.
  pub member-lookup :
      (key : V → Str) (v : V) (m : Table V)
      → Distinct m
      → ((k : Str) (w : V) → lookup k m ≡ some w → key w ≡ k)
      → Member v (values m)
      → lookup (key v) m ≡ some v
  unfolding lookup
  member-lookup key v [] d h i = absurd i
  member-lookup key v ((j, w) ∷ m) d h i = elim i [
    | inl e ↦ ground (arith, e, str_eq_iff j (key v), h j w (ground (arith, str_eq_iff j j)))
    | inr i ↦
        let found =
          member-lookup key v m d.1 (λ k u e. h k u (ground (arith, d.0, str_eq_iff j k))) i in
        ground (arith, found, str_eq_iff j (key v), d.0)
  ]

-- No two elements have the same name.
abbrev pub DistinctBy {ℓ} : {A : Type ℓ} → (A → Str) → List A → Type 0
DistinctBy f [] = Unit
DistinctBy f (x ∷ xs) = (any (λ y. str_eq (f y) (f x)) xs ≡ false) × DistinctBy f xs

module _ {ℓ} {A : Type ℓ} (f : A → Str) where
  insert_by-DistinctBy :
      (less : A → A → Bool) (a : A) (xs : List A)
      → any (λ y. str_eq (f y) (f a)) xs ≡ false
      → DistinctBy f xs
      → DistinctBy f (insert_by less a xs)
  insert_by-DistinctBy less a [] h d = (refl, tt)
  insert_by-DistinctBy less a (x ∷ xs) h d = ground (
    arith,
    str_eq_iff (f x) (f a),
    str_eq_iff (f a) (f x),
    any-insert_by (λ y. str_eq (f y) (f x)) less a xs,
    insert_by-DistinctBy less a xs,
  )

  pub sort_by-DistinctBy :
      (less : A → A → Bool) (xs : List A) → DistinctBy f xs → DistinctBy f (sort_by less xs)
  sort_by-DistinctBy less [] d = tt
  sort_by-DistinctBy less (x ∷ xs) d =
      insert_by-DistinctBy less x (sort_by less xs)
        (any-sort_by (λ y. str_eq (f y) (f x)) less xs ∙ d.0) (sort_by-DistinctBy less xs d.1)

  any-keep_fails : (p q : A → Bool) (xs : List A) → any p xs ≡ false → any p (keep q xs) ≡ false
  any-keep_fails p q [] h = refl
  any-keep_fails p q (x ∷ xs) h = ground (arith, any-keep_fails p q xs)

  pub keep-DistinctBy : (q : A → Bool) (xs : List A) → DistinctBy f xs → DistinctBy f (keep q xs)
  keep-DistinctBy q [] d = tt
  keep-DistinctBy q (x ∷ xs) d =
      ground (arith, any-keep_fails (λ y. str_eq (f y) (f x)) q xs, keep-DistinctBy q xs d.1)

  keyed-tail :
      (j : Str) (v : A) (m : Table A)
      → lookup j m ≡ none
      → ((k : Str) (w : A) → lookup k ((j, v) ∷ m) ≡ some w → f w ≡ k)
      → (k : Str) (w : A) → lookup k m ≡ some w
      → f w ≡ k
  unfolding lookup
  keyed-tail j v m free h k w e = h k w (ground (arith, str_eq_iff j k))

  values-free :
      (k : Str) (m : Table A)
      → Distinct m
      → ((k : Str) (w : A) → lookup k m ≡ some w → f w ≡ k)
      → lookup k m ≡ none
      → any (λ y. str_eq (f y) k) (values m) ≡ false
  unfolding lookup
  values-free k [] d h free = refl
  values-free k ((j, v) ∷ m) d h free =
      let key : f v ≡ j = h j v (ground (arith, str_eq_iff j j)) in
      ground (arith, key, values-free k m d.1 (keyed-tail j v m d.0 h))

  pub values-DistinctBy :
      (m : Table A)
      → Distinct m
      → ((k : Str) (w : A) → lookup k m ≡ some w → f w ≡ k)
      → DistinctBy f (values m)
  unfolding lookup
  values-DistinctBy [] d h = tt
  values-DistinctBy ((j, v) ∷ m) d h =
      let rest = keyed-tail j v m d.0 h in
      let key : f v ≡ j = h j v (ground (arith, str_eq_iff j j)) in
      (rw key (values-free j m d.1 rest d.0), values-DistinctBy m d.1 rest)
