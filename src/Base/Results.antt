-- ===== src/Base/Results.antt =====
-- Fallible code: a result, or an error with the exit code of the `AccError` that was thrown
-- (packages/protocol/src/errors.mjs). The message and the details of an error are left out.
use Prim.Native.Nat.{ℕ}
use mathlib.Core.Path.{◌≡◌, refl}
use mathlib.Core.Bool.{Bool, true, false}
use mathlib.Core.Option.{Option, none, some}
use mathlib.Core.List.{List, [], ◌∷◌}

-- EXIT, less the slot OK, which is no error.
pub data Exit : Type 0 where
  usage timeout invalid conflict attention : Exit

-- The numeric slots, a contract with scripts and adapters.
unfoldable pub exit_code : Exit → ℕ
exit_code Exit.usage = 2
exit_code Exit.timeout = 3
exit_code Exit.invalid = 4
exit_code Exit.conflict = 5
exit_code Exit.attention = 6

pub data Result {ℓ} (A : Type ℓ) : Type ℓ where
  ok : A → Result A
  err : Exit → Result A

infixl 5 ◌>>=◌ ◌>>◌
-- What follows a call that may throw.
abbrev pub ◌>>=◌ {ℓ κ} : {A : Type ℓ} {B : Type κ} → Result A → (A → Result B) → Result B
err thrown >>= next = err thrown
ok value >>= next = next value

-- What follows a check that may throw.
abbrev pub ◌>>◌ {κ} : {B : Type κ} → Result (Unit {0}) → Result B → Result B
err thrown >> last = err thrown
ok done >> last = last

-- `if (!test) throw new AccError(exit, …)`
abbrev pub require : Bool → Exit → Result (Unit {0})
require true e = ok tt
require false e = err e

-- `if (value === null) throw new AccError(exit, …)`
abbrev pub present {ℓ} : {A : Type ℓ} → Option A → Exit → Result A
present none e = err e
present (some a) e = ok a

-- The callback of a `map` that may throw: the first error ends the loop.
unfoldable pub traverse {ℓ κ} :
    {A : Type ℓ} {B : Type κ} → (A → Result B) → List A → Result (List B)
traverse f [] = ok []
traverse f (x ∷ xs) = let rest = traverse f xs in f x >>= λ y. rest >>= λ ys. ok (y ∷ ys)

-- Where the whole returned, the first call returned.
pub >>=-eq-ok {ℓ κ} :
    {A : Type ℓ} {B : Type κ} (first : Result A) (next : A → Result B) {b : B}
    → (first >>= next) ≡ ok b
    → (a : A) × (first ≡ ok a) × (next a ≡ ok b)
>>=-eq-ok (err thrown) next returned = cc
>>=-eq-ok (ok value) next returned = (value, refl, returned)

pub required : (b : Bool) (e : Exit) (u : Unit {0}) → require b e ≡ ok u → b ≡ true
required true e u h = refl
required false e u h = cc

pub found_in {ℓ} : {A : Type ℓ} (o : Option A) (e : Exit) (a : A) → present o e ≡ ok a → o ≡ some a
found_in none e a h = cc
found_in (some b) e a h = cc

-- Where a check and what follows it returned, what follows it returned.
pub after_check {ℓ} :
    {A : Type ℓ} (b : Bool) (e : Exit) (r : Result A) (a : A) → (require b e >> r) ≡ ok a → r ≡ ok a
after_check true e r a h = h
after_check false e r a h = cc
