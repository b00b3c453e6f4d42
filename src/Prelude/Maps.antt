-- ===== src/Prelude/Maps.antt =====
-- A Go map keyed by strings, as an association list: what `range` visits, in some order.
use mathlib.Core.Path.{◌≡◌, refl}
use mathlib.Core.Logic.{◌≢◌}
use mathlib.Core.Option.{Option, none, some}
use mathlib.Core.List.{List, [], ◌∷◌}
use native.Mathlib.Omega.{arith}
use agentboard.Prelude.Tests.{if◌then◌else◌}
use agentboard.Prelude.Bytes.{Str, str_eq, str_eq_iff}

abbrev pub Table {ℓ} : Type ℓ → Type ℓ
Table V = List (Str × V)

module _ {ℓ} {V : Type ℓ} where
  -- `m[k]`; a missing key is the nil pointer.
  unfoldable pub lookup : Str → Table V → Option V
  lookup k [] = none
  lookup k ((j, v) ∷ m) = if str_eq j k then some v else lookup k m

  -- `m[k] = v`
  unfoldable pub insert : Str → V → Table V → Table V
  insert k v [] = (k, v) ∷ []
  insert k v ((j, w) ∷ m) = if str_eq j k then (k, v) ∷ m else (j, w) ∷ insert k v m

  -- `delete(m, k)`
  unfoldable pub erase : Str → Table V → Table V
  erase k [] = []
  erase k ((j, w) ∷ m) = if str_eq j k then m else (j, w) ∷ erase k m

  abbrev pub values : Table V → List V
  values [] = []
  values ((j, v) ∷ m) = v ∷ values m

  -- No key is listed twice.
  abbrev pub Distinct : Table V → Type ℓ
  Distinct [] = Unit
  Distinct ((k, v) ∷ m) = (lookup k m ≡ none) × Distinct m

  pub lookup-insert :
      (k j : Str) (v : V) (m : Table V)
      → lookup j (insert k v m) ≡ (if str_eq k j then some v else lookup j m)
  unfolding lookup insert
  lookup-insert k j v [] = refl
  lookup-insert k j v ((i, w) ∷ m) =
      ground (arith, str_eq_iff k j, str_eq_iff i k, str_eq_iff i j, lookup-insert k j v m)

  pub lookup-insert_self : (k : Str) (v : V) (m : Table V) → lookup k (insert k v m) ≡ some v
  lookup-insert_self k v m = ground (arith, lookup-insert k k v m, str_eq_iff k k)

  pub lookup-insert_ne :
      (k j : Str) (v : V) (m : Table V) → k ≢ j → lookup j (insert k v m) ≡ lookup j m
  lookup-insert_ne k j v m h = ground (arith, lookup-insert k j v m, str_eq_iff k j)

  pub insert-Distinct : (k : Str) (v : V) (m : Table V) → Distinct m → Distinct (insert k v m)
  unfolding lookup insert
  insert-Distinct k v [] h = (refl, tt)
  insert-Distinct k v ((i, w) ∷ m) h =
      ground
        (arith, str_eq_iff i k, str_eq_iff k i, insert-Distinct k v m h.1, lookup-insert k i v m)

  pub lookup-erase_ne : (k j : Str) (m : Table V) → k ≢ j → lookup j (erase k m) ≡ lookup j m
  unfolding lookup erase
  lookup-erase_ne k j [] h = refl
  lookup-erase_ne k j ((i, w) ∷ m) h =
      ground (arith, str_eq_iff i k, str_eq_iff i j, lookup-erase_ne k j m h)

  pub lookup-erase_self : (k : Str) (m : Table V) → Distinct m → lookup k (erase k m) ≡ none
  unfolding lookup erase
  lookup-erase_self k [] h = refl
  lookup-erase_self k ((i, w) ∷ m) h = ground (arith, str_eq_iff i k, lookup-erase_self k m h.1)

  pub erase-Distinct : (k : Str) (m : Table V) → Distinct m → Distinct (erase k m)
  unfolding lookup erase
  erase-Distinct k [] h = tt
  erase-Distinct k ((i, w) ∷ m) h =
      ground (arith, str_eq_iff i k, str_eq_iff k i, erase-Distinct k m h.1, lookup-erase_ne k i m)

  -- A loop over the map that writes each value in place.
  abbrev pub map_values : (V → V) → Table V → Table V
  map_values f [] = []
  map_values f ((k, v) ∷ m) = (k, f v) ∷ map_values f m

  abbrev pub map_option : (V → V) → Option V → Option V
  map_option f none = none
  map_option f (some v) = some (f v)

  pub lookup-map_values :
      (f : V → V) (k : Str) (m : Table V) → lookup k (map_values f m) ≡ map_option f (lookup k m)
  unfolding lookup
  lookup-map_values f k [] = refl
  lookup-map_values f k ((j, w) ∷ m) = ground (arith, lookup-map_values f k m)

  pub map_values-Distinct : (f : V → V) (m : Table V) → Distinct m → Distinct (map_values f m)
  map_values-Distinct f [] h = tt
  map_values-Distinct f ((j, w) ∷ m) h =
      (rw (lookup-map_values f j m, h.0), map_values-Distinct f m h.1)
