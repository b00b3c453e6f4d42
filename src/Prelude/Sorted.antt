-- ===== src/Prelude/Sorted.antt =====
-- Lists in the order of a Boolean test.
use mathlib.Core.Path.{◌≡◌, refl}
use mathlib.Core.Logic.{inl, inr}
use mathlib.Core.Bool.{false≢true, Bool, true, false, ◌&&◌, ◌||◌}
use mathlib.Core.List.{List, [], ◌∷◌, ◌++◌}
use native.Mathlib.Omega.{arith}
use agentboard.Prelude.Bytes.{Str, str_lt, str_eq}
use agentboard.Prelude.Lists.{insert_by, sort_by, keep, any}
use agentboard.Prelude.Tests.{Bool-cases}

-- No element comes right after one that it should come before.
abbrev pub IsAscending {ℓ} : {A : Type ℓ} → (A → A → Bool) → List A → Type 0
IsAscending less [] = Unit
IsAscending less (x ∷ []) = Unit
IsAscending less (x ∷ (y ∷ rest)) = (less y x ≡ false) × IsAscending less (y ∷ rest)

insert_by-IsAscending {ℓ} :
    {A : Type ℓ} (less : A → A → Bool)
    → ((x y : A) → less x y ≡ true → less y x ≡ false)
    → (a : A) (xs : List A) → IsAscending less xs
    → IsAscending less (insert_by less a xs)
insert_by-IsAscending less asym a [] h = tt
insert_by-IsAscending less asym a (x ∷ []) h = ground (arith, asym x a)
insert_by-IsAscending less asym a (x ∷ (y ∷ rest)) h =
    ground (arith, asym x a, asym y a, insert_by-IsAscending less asym a (y ∷ rest) h.1)

pub sort_by-IsAscending {ℓ} :
    {A : Type ℓ} (less : A → A → Bool)
    → ((x y : A) → less x y ≡ true → less y x ≡ false)
    → (xs : List A) → IsAscending less (sort_by less xs)
sort_by-IsAscending less asym [] = tt
sort_by-IsAscending less asym (x ∷ xs) =
    insert_by-IsAscending less asym x (sort_by less xs) (sort_by-IsAscending less asym xs)

pub str_lt_asym : (a b : Str) → str_lt a b ≡ true → str_lt b a ≡ false
unfolding str_lt
str_lt_asym [] [] h = cc
str_lt_asym [] (y ∷ ys) h = refl
str_lt_asym (x ∷ xs) [] h = cc
str_lt_asym (x ∷ xs) (y ∷ ys) h = ground (arith, str_lt_asym xs ys)

pub str_lt_total : (a b : Str) → str_eq a b ≡ false → str_lt b a ≡ false → str_lt a b ≡ true
unfolding str_lt str_eq
str_lt_total [] [] h k = cc
str_lt_total [] (y ∷ ys) h k = refl
str_lt_total (x ∷ xs) [] h k = cc
str_lt_total (x ∷ xs) (y ∷ ys) h k = ground (arith, str_lt_total xs ys)

pub any-keep {ℓ} :
    {A : Type ℓ} (p q : A → Bool) (xs : List A) → any p (keep q xs) ≡ any (λ x. q x && p x) xs
any-keep p q [] = refl
any-keep p q (x ∷ xs) = ground (arith, any-keep p q xs)

-- An element that passes, and is found by every test that it passes.
pub any-witness {ℓ} :
    {A : Type ℓ} (p : A → Bool) (xs : List A)
    → any p xs ≡ true
    → (x : A) × (p x ≡ true) × ((q : A → Bool) → q x ≡ true → any q xs ≡ true)
any-witness p [] h = absurd (false≢true h)
any-witness p (x ∷ xs) h = elim (Bool-cases (p x)) [
  | inl here ↦ (x, here, λ q k. rw k refl)
  | inr past ↦
      let (y, passes, found) = any-witness p xs (ground arith) in
      (y, passes, λ q k. let e = found q k in ground arith)
]

pub any-append {ℓ} :
    {A : Type ℓ} (p : A → Bool) (xs ys : List A) → any p (xs ++ ys) ≡ (any p xs || any p ys)
any-append p [] ys = refl
any-append p (x ∷ xs) ys = ground (arith, any-append p xs ys)
