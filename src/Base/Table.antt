-- ===== src/Base/Table.antt =====
-- The records of one kind in a transaction, by id: `Map`s of packages/storage-filesystem
-- (src/transaction-view.mjs) as one association list in the order that `list` shows. A new id goes
-- to the end, and a record that is written again keeps its place.
use mathlib.Core.Path.{◌≡◌, refl}
use mathlib.Core.Bool.{Bool, false}
use mathlib.Core.Option.{Option, none, some}
use mathlib.Core.List.{List, [], ◌∷◌}
use native.Mathlib.Omega.{arith}
use agents_can_communicate.Base.Tests.{if◌then◌else◌}
use agents_can_communicate.Base.Lists.{any}
use agents_can_communicate.Base.Texts.{Text, ◌==◌, eq_iff}

abbrev pub Table {ℓ} : Type ℓ → Type ℓ
Table A = List (Text × A)

module _ {ℓ} {A : Type ℓ} where
  unfoldable pub lookup : Text → Table A → Option A
  lookup k [] = none
  lookup k ((j, v) ∷ t) = if j == k then some v else lookup k t

  unfoldable pub insert : Text → A → Table A → Table A
  insert k v [] = (k, v) ∷ []
  insert k v ((j, w) ∷ t) = if j == k then (k, v) ∷ t else (j, w) ∷ insert k v t

  unfoldable pub remove : Text → Table A → Table A
  remove k [] = []
  remove k ((j, v) ∷ t) = let rest = remove k t in if j == k then rest else (j, v) ∷ rest

  unfoldable pub values : Table A → List A
  values [] = []
  values ((k, v) ∷ t) = v ∷ values t

  pub lookup-insert :
      (k j : Text) (v : A) (t : Table A)
      → lookup j (insert k v t) ≡ (if k == j then some v else lookup j t)
  unfolding lookup insert
  lookup-insert k j v [] = refl
  lookup-insert k j v ((i, w) ∷ t) =
      ground (arith, eq_iff k j, eq_iff i k, eq_iff i j, lookup-insert k j v t)

  pub lookup-remove :
      (k j : Text) (t : Table A) → lookup j (remove k t) ≡ (if k == j then none else lookup j t)
  unfolding lookup remove
  lookup-remove k j [] = ground arith
  lookup-remove k j ((i, w) ∷ t) =
      ground (arith, eq_iff k j, eq_iff i k, eq_iff i j, lookup-remove k j t)

  -- What no listed record passes, no record that is looked up passes.
  pub any-lookup :
      (p : A → Bool) (t : Table A) (k : Text) (v : A)
      → any p (values t) ≡ false
      → lookup k t ≡ some v
      → p v ≡ false
  unfolding any values lookup
  any-lookup p [] k v h e = cc
  any-lookup p ((j, w) ∷ t) k v h e = ground (arith, any-lookup p t k v)
