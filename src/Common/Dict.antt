-- ===== src/Common/Dict.antt =====
-- Go's maps with text keys, as association lists. Iteration goes in the list's order, which Go
-- leaves open.
use go_acme_store.Common.Tests.{◌==◌, if◌then◌else◌}
use go_acme_store.Common.Lists.{contains, Distinct}
use Prim.Native.String.{String}
use mathlib.Core.Path.{◌≡◌, refl}
use mathlib.Core.Bool.{true, false}
use mathlib.Core.Option.{Option, none, some}
use mathlib.Core.List.{List, [], ◌∷◌}
use native.Mathlib.Omega.{arith}

abbrev pub Dict {ℓ} : Type ℓ → Type ℓ
Dict V = List (String × V)

abbrev pub keys {ℓ} : {V : Type ℓ} → Dict V → List String
keys [] = []
keys ((k, v) ∷ d) = k ∷ keys d

module _ {ℓ} {V : Type ℓ} where
  unfoldable pub lookup : String → Dict V → Option V
  lookup k [] = none
  lookup k ((j, v) ∷ d) = if k == j then some v else lookup k d

  -- `d[k] = v`
  unfoldable pub insert : String → V → Dict V → Dict V
  insert k v [] = (k, v) ∷ []
  insert k v ((j, w) ∷ d) = let rest = insert k v d in if k == j then (k, v) ∷ d else (j, w) ∷ rest

  -- `delete(d, k)`
  unfoldable pub erase : String → Dict V → Dict V
  erase k [] = []
  erase k ((j, w) ∷ d) = let rest = erase k d in if k == j then rest else (j, w) ∷ rest

  pub lookup-insert :
      (j k : String) (v : V) (d : Dict V)
      → lookup j (insert k v d) ≡ (if j == k then some v else lookup j d)
  unfolding lookup insert
  lookup-insert j k v [] = refl
  lookup-insert j k v ((i, w) ∷ d) = ground (arith, lookup-insert j k v d)

  pub lookup-erase :
      (j k : String) (d : Dict V) → lookup j (erase k d) ≡ (if j == k then none else lookup j d)
  unfolding lookup erase
  lookup-erase j k [] = ground arith
  lookup-erase j k ((i, w) ∷ d) = ground (arith, lookup-erase j k d)

  pub lookup-nil : (j : String) → lookup j [] ≡ none
  unfolding lookup
  lookup-nil j = refl

  -- A key is listed exactly when it is bound.
  pub contains-keys :
      (d : Dict V) (k : String)
      → contains (keys d) k ≡ elim (lookup k d) [ none ↦ false | some v ↦ true ]
  unfolding lookup
  contains-keys [] k = refl
  contains-keys ((j, v) ∷ d) k = ground (arith, contains-keys d k)

module _ {ℓ} {V : Type ℓ} where
  pub insert-Distinct :
      (k : String) (v : V) (d : Dict V) → Distinct (keys d) → Distinct (keys (insert k v d))
  unfolding insert lookup
  insert-Distinct k v [] h = (refl, tt)
  insert-Distinct k v ((j, w) ∷ d) h = ground (
    arith,
    insert-Distinct k v d h.1,
    contains-keys d j,
    contains-keys (insert k v d) j,
    lookup-insert j k v d,
  )

  pub erase-Distinct : (k : String) (d : Dict V) → Distinct (keys d) → Distinct (keys (erase k d))
  unfolding erase lookup
  erase-Distinct k [] h = h
  erase-Distinct k ((j, w) ∷ d) h = ground (
    arith,
    erase-Distinct k d h.1,
    contains-keys d j,
    contains-keys (erase k d) j,
    lookup-erase j k d,
  )

pub ruleset dict_laws = (lookup-nil, lookup-insert, lookup-erase)
