-- ===== src/Base/Order.antt =====
-- `Array.prototype.sort` of strings, which compares their code units, and `[...new Set(xs)]`.
use mathlib.Core.Path.{◌≡◌, refl}
use mathlib.Core.Bool.{Bool, true, false, ◌||◌, ◌&&◌}
use mathlib.Core.List.{List, [], ◌∷◌}
use native.Mathlib.Omega.{arith}
use agents_can_communicate.Base.Tests.{eqb, ltb, if◌then◌else◌}
use agents_can_communicate.Base.Texts.{Text, ◌==◌, eq_iff, includes}

-- Not after, in the order of code units; a prefix comes first.
unfoldable pub text_leb : Text → Text → Bool
text_leb [] ys = true
text_leb (x ∷ xs) [] = false
text_leb (x ∷ xs) (y ∷ ys) = ltb x y || (eqb x y && text_leb xs ys)

unfoldable pub insert_sorted : Text → List Text → List Text
unfolding text_leb
insert_sorted x [] = x ∷ []
insert_sorted x (y ∷ ys) =
    let rest = insert_sorted x ys in if text_leb x y then x ∷ y ∷ ys else y ∷ rest

unfoldable pub sort : List Text → List Text
unfolding insert_sorted
sort [] = []
sort (x ∷ xs) = insert_sorted x (sort xs)

without : Text → List Text → List Text
unfolding ◌==◌
without x [] = []
without x (y ∷ ys) = let rest = without x ys in if x == y then rest else y ∷ rest

-- The first occurrence of each text, in order.
unfoldable pub unique : List Text → List Text
unfolding without
unique [] = []
unique (x ∷ xs) = x ∷ without x (unique xs)

includes-insert_sorted :
    (a x : Text) (xs : List Text) → includes a (insert_sorted x xs) ≡ (includes a (x ∷ xs))
unfolding includes insert_sorted
includes-insert_sorted a x [] = refl
includes-insert_sorted a x (y ∷ ys) = ground (arith, includes-insert_sorted a x ys)

pub includes-sort : (a : Text) (xs : List Text) → includes a (sort xs) ≡ includes a xs
unfolding sort includes
includes-sort a [] = refl
includes-sort a (x ∷ xs) = ground (arith, includes-insert_sorted a x (sort xs), includes-sort a xs)

includes-without :
    (a x : Text) (xs : List Text)
    → includes a (without x xs) ≡ (if x == a then false else includes a xs)
unfolding includes without
includes-without a x [] = ground arith
includes-without a x (y ∷ ys) =
    ground (arith, includes-without a x ys, eq_iff x a, eq_iff x y, eq_iff a y)

pub includes-unique : (a : Text) (xs : List Text) → includes a (unique xs) ≡ includes a xs
unfolding unique includes
includes-unique a [] = refl
includes-unique a (x ∷ xs) =
    ground (arith, includes-without a x (unique xs), includes-unique a xs, eq_iff x a, eq_iff a x)
