-- ===== src/Base/Sorting.antt =====
-- `Array.prototype.sort` with a comparison, `before a b` where it is negative.
use mathlib.Core.Path.{◌≡◌, refl}
use mathlib.Core.Logic.{inl, inr}
use mathlib.Core.Bool.{Bool, true, ◌||◌}
use mathlib.Core.List.{List, [], ◌∷◌, Memᴰ}
use mathlib.Core.List.Memᴰ
use native.Mathlib.Omega.{arith}
use agents_can_communicate.Base.Tests.{if◌then◌else◌, Bool-cases}
use agents_can_communicate.Base.Lists.{filter, All}

module _ {ℓ} {A : Type ℓ} (before : A → A → Bool) where
  unfoldable pub place : A → List A → List A
  place x [] = x ∷ []
  place x (y ∷ ys) = let rest = place x ys in if before x y then x ∷ y ∷ ys else y ∷ rest

  unfoldable pub sort_by : List A → List A
  unfolding place
  sort_by [] = []
  sort_by (x ∷ xs) = place x (sort_by xs)

  abbrev pub IsFirst : A → List A → Type 0
  IsFirst x ys = All (λ (y : A). before x y ≡ true) ys

  abbrev pub IsSorted : List A → Type 0
  IsSorted [] = Unit
  IsSorted (x ∷ xs) = IsFirst x xs × IsSorted xs

  -- Any two of them are in one order or the other.
  abbrev pub IsApart : A → List A → Type 0
  IsApart x ys = All (λ (y : A). (before x y || before y x) ≡ true) ys

  abbrev pub AllApart : List A → Type 0
  AllApart [] = Unit
  AllApart (x ∷ xs) = IsApart x xs × AllApart xs

  All-place {κ} : (P : A → Type κ) (x : A) (ys : List A) → P x → All P ys → All P (place x ys)
  unfolding place
  All-place P x [] p all = (p, tt)
  All-place P x (y ∷ ys) p (q, all) = elim (Bool-cases (before x y)) [
    | inl e ↦ rw e (p, (q, all))
    | inr e ↦ rw e (q, All-place P x ys p all)
  ]

  pub All-sort_by {κ} : (P : A → Type κ) (xs : List A) → All P xs → All P (sort_by xs)
  unfolding sort_by
  All-sort_by P [] all = tt
  All-sort_by P (x ∷ xs) (p, all) = All-place P x (sort_by xs) p (All-sort_by P xs all)

  Memᴰ-place : (a x : A) (ys : List A) → Memᴰ a (x ∷ ys) → Memᴰ a (place x ys)
  unfolding place
  Memᴰ-place a x [] i = i
  Memᴰ-place a x (y ∷ ys) i = elim (Bool-cases (before x y)) [
    | inl e ↦ rw e i
    | inr e ↦ rw e (elim (Memᴰ.cases_cons i) [
      | inl q ↦ Memᴰ.tail (Memᴰ-place a x ys (Memᴰ.head q))
      | inr j ↦ elim (Memᴰ.cases_cons j) [
        | inl q ↦ Memᴰ.head q
        | inr k ↦ Memᴰ.tail (Memᴰ-place a x ys (Memᴰ.tail k))
      ]
    ])
  ]

  pub Memᴰ-sort_by : (a : A) (xs : List A) → Memᴰ a xs → Memᴰ a (sort_by xs)
  unfolding sort_by
  Memᴰ-sort_by a [] i = i
  Memᴰ-sort_by a (x ∷ xs) i =
      Memᴰ-place a x (sort_by xs)
        (elim (Memᴰ.cases_cons i) [ inl q ↦ Memᴰ.head q | inr j ↦ Memᴰ.tail (Memᴰ-sort_by a xs j) ])

  module _ (trans : (a b c : A) → before a b ≡ true → before b c ≡ true → before a c ≡ true) where
    IsFirst-trans : (x y : A) (ys : List A) → before x y ≡ true → IsFirst y ys → IsFirst x ys
    IsFirst-trans x y [] h f = tt
    IsFirst-trans x y (z ∷ zs) h (g, f) = (trans x y z h g, IsFirst-trans x y zs h f)

    place-IsSorted : (x : A) (ys : List A) → IsApart x ys → IsSorted ys → IsSorted (place x ys)
    unfolding place
    place-IsSorted x [] apart sorted = (tt, tt)
    place-IsSorted x (y ∷ ys) (a, apart) (f, sorted) = elim (Bool-cases (before x y)) [
      | inl e ↦ rw e ((e, IsFirst-trans x y ys e f), (f, sorted))
      | inr e ↦ rw e (
        All-place (λ (z : A). before y z ≡ true) x ys (ground arith) f,
        place-IsSorted x ys apart sorted,
      )
    ]

    pub sort_by-IsSorted : (xs : List A) → AllApart xs → IsSorted (sort_by xs)
    unfolding sort_by
    sort_by-IsSorted [] apart = tt
    sort_by-IsSorted (x ∷ xs) (a, apart) =
        place-IsSorted x (sort_by xs) (All-sort_by _ xs a) (sort_by-IsSorted xs apart)

    place-IsFirst : (x : A) (ys : List A) → IsFirst x ys → place x ys ≡ x ∷ ys
    unfolding place
    place-IsFirst x [] f = refl
    place-IsFirst x (y ∷ ys) (h, f) = rw h refl

    IsFirst-filter : (p : A → Bool) (x : A) (ys : List A) → IsFirst x ys → IsFirst x (filter p ys)
    unfolding filter
    IsFirst-filter p x [] f = tt
    IsFirst-filter p x (y ∷ ys) (h, f) = elim (Bool-cases (p y)) [
      | inl e ↦ rw e (h, IsFirst-filter p x ys f)
      | inr e ↦ rw e (IsFirst-filter p x ys f)
    ]

    filter-place :
        (p : A → Bool) (x : A) (ys : List A)
        → IsSorted ys
        → filter p (place x ys) ≡ (if p x then place x (filter p ys) else filter p ys)
    unfolding place filter
    filter-place p x [] sorted = refl
    filter-place p x (y ∷ ys) (f, sorted) = elim (Bool-cases (before x y)) [
      | inl e ↦
          let first = IsFirst-filter p x ys (IsFirst-trans x y ys e f) in
          let at_once = place-IsFirst x (filter p ys) first in ground arith
      | inr e ↦ let rest = filter-place p x ys sorted in ground arith
    ]

    -- Sorting what passes is what passes of the sorted list.
    pub sort_by-filter :
        (p : A → Bool) (xs : List A) → AllApart xs → sort_by (filter p xs) ≡ filter p (sort_by xs)
    unfolding sort_by filter
    sort_by-filter p [] apart = refl
    sort_by-filter p (x ∷ xs) (a, apart) = elim (Bool-cases (p x)) [
      | inl e ↦
          rw
            (
              e,
              filter-place p x (sort_by xs) (sort_by-IsSorted xs apart),
              e,
              sort_by-filter p xs apart,
            )
            refl
      | inr e ↦
          rw
            (
              e,
              filter-place p x (sort_by xs) (sort_by-IsSorted xs apart),
              e,
              sort_by-filter p xs apart,
            )
            refl
    ]
