-- ===== src/Base/Members.antt =====
-- Membership in a list that a Boolean test filters.
use mathlib.Core.Path.{◌≡◌}
use mathlib.Core.Logic.{inl, inr}
use mathlib.Core.Bool.{Bool, true}
use mathlib.Core.List.{List, [], ◌∷◌, Memᴰ}
use mathlib.Core.List.Memᴰ
use agents_can_communicate.Base.Tests.{Bool-cases}
use agents_can_communicate.Base.Lists.{filter}

module _ {ℓ} {A : Type ℓ} (p : A → Bool) where
  pub Memᴰ-filter : (a : A) (xs : List A) → Memᴰ a xs → p a ≡ true → Memᴰ a (filter p xs)
  unfolding filter
  Memᴰ-filter a [] i h = absurd (Memᴰ.not-nil i)
  Memᴰ-filter a (x ∷ xs) (Memᴰ.head e) h = rw (rw e at h) (Memᴰ.head e)
  Memᴰ-filter a (x ∷ xs) (Memᴰ.tail i) h = elim (Bool-cases (p x)) [
    | inl e ↦ rw e (Memᴰ.tail (Memᴰ-filter a xs i h))
    | inr e ↦ rw e (Memᴰ-filter a xs i h)
  ]

  pub filter-Memᴰ : (a : A) (xs : List A) → Memᴰ a (filter p xs) → Memᴰ a xs × (p a ≡ true)
  unfolding filter
  filter-Memᴰ a [] i = absurd (Memᴰ.not-nil i)
  filter-Memᴰ a (x ∷ xs) i = elim (Bool-cases (p x)) [
    | inl e ↦ elim (Memᴰ.cases_cons (rw e at i)) [
      | inl q ↦ (Memᴰ.head q, rw q e)
      | inr j ↦ let (m, h) = filter-Memᴰ a xs j in (Memᴰ.tail m, h)
    ]
    | inr e ↦ let (m, h) = filter-Memᴰ a xs (rw e at i) in (Memᴰ.tail m, h)
  ]
