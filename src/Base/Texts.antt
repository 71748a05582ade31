-- ===== src/Base/Texts.antt =====
-- Texts: a JavaScript string is the list of its UTF-16 code units. `codes` writes one down from a
-- literal (ASCII ones only, where a code unit is a code point).
use Prim.Native.Nat.{ℕ}
use Prim.Native.Char.{code}
use Prim.Native.String.{String}
use mathlib.Core.Path.{◌≡◌, refl}
use mathlib.Core.Logic.{◌↔◌, inl, inr}
use mathlib.Core.Bool.{Bool, true, false, ◌&&◌, ◌||◌}
use mathlib.Core.List.{List, [], ◌∷◌, ◌++◌}
use native.Mathlib.Omega.{arith}
use agents_can_communicate.Base.Tests.{eqb, if◌then◌else◌, Bool-cases}
use agents_can_communicate.Base.Lists.{any, every}

abbrev pub Text : Type 0
Text = List ℕ

abbrev pub codes : String → Text
codes String.[] = []
codes (String.◌∷◌ c s) = code c ∷ codes s

infix 50 ◌==◌
-- ===
unfoldable pub ◌==◌ : Text → Text → Bool
[] == [] = true
[] == (y ∷ ys) = false
(x ∷ xs) == [] = false
(x ∷ xs) == (y ∷ ys) = eqb x y && (xs == ys)

pub eq_sound : (s t : Text) → (s == t) ≡ true → s ≡ t
unfolding ◌==◌
eq_sound [] [] h = refl
eq_sound [] (y ∷ ys) h = cc
eq_sound (x ∷ xs) [] h = cc
eq_sound (x ∷ xs) (y ∷ ys) h = ground (arith, eq_sound xs ys)

pub eq_refl : (s : Text) → (s == s) ≡ true
unfolding ◌==◌
eq_refl [] = refl
eq_refl (x ∷ xs) = ground (arith, eq_refl xs)

pub eq_iff : (s t : Text) → ((s == t) ≡ true) ↔ (s ≡ t)
eq_iff s t = (eq_sound s t, λ e. rw e (eq_refl t))

pub eq_comm : (s t : Text) → (s == t) ≡ (t == s)
eq_comm s t = ground (arith, eq_iff s t, eq_iff t s)

-- Array.prototype.includes
unfoldable pub includes : Text → List Text → Bool
includes a [] = false
includes a (x ∷ xs) = (a == x) || includes a xs

-- String.prototype.startsWith
unfoldable pub starts_with : Text → Text → Bool
starts_with s [] = true
starts_with [] (p ∷ ps) = false
starts_with (c ∷ cs) (p ∷ ps) = eqb c p && starts_with cs ps

-- `new Set(xs).size === xs.length`
unfoldable pub distinct : List Text → Bool
unfolding includes
distinct [] = true
distinct (x ∷ xs) = if includes x xs then false else distinct xs

pub starts_with-append : (p q : Text) → starts_with (p ++ q) p ≡ true
unfolding starts_with
starts_with-append [] q = refl
starts_with-append (c ∷ cs) q = ground (arith, starts_with-append cs q)

pub starts_with_sound : (s p : Text) → starts_with s p ≡ true → (q : Text) × (s ≡ p ++ q)
unfolding starts_with
starts_with_sound s [] h = (s, refl)
starts_with_sound [] (p ∷ ps) h = cc
starts_with_sound (c ∷ cs) (p ∷ ps) h =
    let (q, e) = starts_with_sound cs ps (ground arith) in (q, ground arith)

-- What holds of no listed text does not hold of an included one.
pub any-includes :
    (p : Text → Bool) (names : List Text) (r : Text)
    → any p names ≡ false
    → includes r names ≡ true
    → p r ≡ false
unfolding any includes
any-includes p [] r h e = cc
any-includes p (x ∷ xs) r h e = ground (arith, any-includes p xs r, eq_iff r x)

pub every-includes :
    (p : Text → Bool) (a : Text) (xs : List Text)
    → every p xs ≡ true
    → includes a xs ≡ true
    → p a ≡ true
unfolding every includes
every-includes p a [] e h = cc
every-includes p a (x ∷ xs) e h = elim (Bool-cases (a == x)) [
  | inl here ↦ rw ((eq_iff a x).0 here) (ground arith)
  | inr other ↦ every-includes p a xs (ground arith) (ground arith)
]

pub includes_self : (x : Text) (xs : List Text) → includes x (x ∷ xs) ≡ true
unfolding includes
includes_self x xs = rw (eq_refl x)

pub includes-cons :
    (x y : Text) (xs : List Text) → includes x xs ≡ true → includes x (y ∷ xs) ≡ true
unfolding includes
includes-cons x y xs h = ground arith
