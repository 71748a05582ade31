-- ===== src/Core/Decisions/Distinct.antt =====
-- A group names no decision twice, so that the heads in it can be counted.
use agents_can_communicate.Base.{
  ℕ, zero, suc, ◌≡◌, ◌↔◌, refl, ap, Bool, true, false, not, ◌&&◌, some, List, [], ◌∷◌, ◌++◌, arith,
  Text, ◌==◌, eq_iff, includes, distinct, filter, length, eqb, Bool-cases, inl, inr,
}
use agents_can_communicate.Core.Decisions.{
  Search, visit, visit_all, neighbours, walk, group_of, only_one,
}
use agents_can_communicate.Core.Decisions.Walks.{includes-append, pending_cases}

distinct-append :
    (xs : List Text) (v : Text)
    → distinct xs ≡ true
    → includes v xs ≡ false
    → distinct (xs ++ v ∷ []) ≡ true
unfolding distinct includes
distinct-append [] v d n = refl
distinct-append (x ∷ xs) v d n =
    ground (arith, distinct-append xs v, includes-append x xs (v ∷ []), eq_iff v x, eq_iff x v)

distinct-visit_all :
    (vs : List Text) (s : Search) → distinct s.group ≡ true → distinct (visit_all vs s).group ≡ true
unfolding visit_all
distinct-visit_all [] s d = d
distinct-visit_all (v ∷ vs) s d =
    distinct-visit_all vs (visit v s) (elim (Bool-cases (includes v s.group)) [
      | inl e ↦ unfold visit in rw e d
      | inr n ↦ unfold visit in rw n (distinct-append s.group v d n)
    ])

module _ (es : List (Text × Text)) where
  distinct-walk :
      (fuel : ℕ) (s : Search) (group : List Text)
      → distinct s.group ≡ true
      → walk es fuel s ≡ some group
      → distinct group ≡ true
  unfolding walk
  distinct-walk zero s group d h = elim (pending_cases s.pending) [
    | inl e ↦ let h' = rw (e, walk) at h in ground arith
    | inr (u, rest, e) ↦ absurd (ground arith)
  ]
  distinct-walk (suc fuel) s group d h = elim (pending_cases s.pending) [
    | inl e ↦ let h' = rw (e, walk) at h in ground arith
    | inr (u, rest, e) ↦
        distinct-walk fuel (visit_all (neighbours es u) (record s { pending = rest })) group
          (distinct-visit_all (neighbours es u) (record s { pending = rest }) d) (rw (e, walk) at h)
  ]

  -- The walk puts no decision into the group twice.
  pub distinct-group_of :
      (fuel : ℕ) (start : Text) (group : List Text)
      → group_of es fuel start ≡ some group
      → distinct group ≡ true
  unfolding group_of distinct includes
  distinct-group_of fuel start group h = distinct-walk fuel _ group refl h

pub includes-filter :
    (p : Text → Bool) (v : Text) (xs : List Text)
    → includes v (filter p xs) ≡ (includes v xs && p v)
unfolding includes filter
includes-filter p v [] = refl
includes-filter p v (x ∷ xs) = elim (Bool-cases (v == x)) [
  | inl e ↦ rw (← (eq_iff v x).0 e) (ground (arith, includes-filter p v xs, eq_iff v v))
  | inr n ↦ ground (arith, includes-filter p v xs)
]

pub distinct-filter :
    (p : Text → Bool) (xs : List Text) → distinct xs ≡ true → distinct (filter p xs) ≡ true
unfolding distinct filter
distinct-filter p [] d = refl
distinct-filter p (x ∷ xs) d = ground (arith, distinct-filter p xs, includes-filter p x xs)

-- The one member of a list.
abbrev pub IsSole : List Text → Text → Type 0
IsSole xs h = (includes h xs ≡ true) × ((k : Text) → includes k xs ≡ true → k ≡ h)

not-IsSole :
    (x y : Text) (rest : List Text) (h : Text)
    → distinct (x ∷ y ∷ rest) ≡ true
    → ¬ (IsSole (x ∷ y ∷ rest) h)
unfolding distinct includes
not-IsSole x y rest h d (m, sole) =
    let ex : x ≡ h = sole x (ground (arith, eq_iff x x)) in
    let ey : y ≡ h = sole y (ground (arith, eq_iff y y)) in ground (arith, eq_iff x y)

IsSole-singleton : (x h : Text) → (x ≡ h) ↔ IsSole (x ∷ []) h
unfolding includes
IsSole-singleton x h = (
  λ e. (ground (arith, eq_iff h x), λ k m. ground (arith, eq_iff k x)),
  λ (m, sole). sole x (ground (arith, eq_iff x x)),
)

pub only_one-IsSole :
    (xs : List Text) (h : Text) → distinct xs ≡ true → (only_one xs ≡ some h) ↔ IsSole xs h
unfolding only_one
only_one-IsSole [] h d = (λ e. absurd (cc), λ (m, sole). absurd (unfold includes in cc))
only_one-IsSole (x ∷ []) h d =
    (λ e. (IsSole-singleton x h).0 (cc), λ s. ap some ((IsSole-singleton x h).1 s))
only_one-IsSole (x ∷ y ∷ rest) h d = (λ e. absurd (cc), λ s. absurd (not-IsSole x y rest h d s))

pub one-IsSole :
    (xs : List Text)
    → distinct xs ≡ true
    → (not (eqb (length xs) 1) ≡ false) ↔ ((h : Text) × IsSole xs h)
one-IsSole [] d = (λ e. absurd (cc), λ (h, (m, sole)). absurd (unfold includes in cc))
one-IsSole (x ∷ []) d = (λ e. (x, (IsSole-singleton x x).0 refl), λ s. refl)
one-IsSole (x ∷ y ∷ rest) d =
    (λ e. absurd (ground arith), λ (h, s). absurd (not-IsSole x y rest h d s))
