-- ===== src/Core/Pages/Listing.antt =====
-- What a sorted listing has after one of its messages.
use mathlib.Core.List.{Memᴰ}
use agents_can_communicate.Base.{
  ◌≡◌, refl, Bool, true, false, ◌&&◌, ◌||◌, List, [], ◌∷◌, ◌++◌, arith, Text, ◌==◌, filter, All,
  Bool-cases, inl, inr,
}
use agents_can_communicate.Base.Sorting.{IsFirst, IsSorted, AllApart}
use agents_can_communicate.Protocol.Messages.{Message}
use agents_can_communicate.Core.Pages.{newest_first}

-- What the language promises of `localeCompare` on different ids.
pub record IsOrder (id_before : Text → Text → Bool) : Type 0 where
  pub trans : (a b c : Text) → id_before a b ≡ true → id_before b c ≡ true → id_before a c ≡ true
  pub asym : (a b : Text) → id_before a b ≡ true → id_before b a ≡ false
  pub total : (a b : Text) → a == b ≡ false → (id_before a b || id_before b a) ≡ true

-- No two messages have one id.
abbrev pub HaveOwnIds : List Message → Type 0
HaveOwnIds [] = Unit
HaveOwnIds (m ∷ ms) = All (λ (n : Message). m.message_id == n.message_id ≡ false) ms × HaveOwnIds ms

module _ {ℓ} {A : Type ℓ} (p : A → Bool) where
  pub filter-fuse :
      (q : A → Bool) (xs : List A) → filter q (filter p xs) ≡ filter (λ x. p x && q x) xs
  unfolding filter
  filter-fuse q [] = refl
  filter-fuse q (x ∷ xs) = ground (arith, filter-fuse q xs)

  pub All-filter {κ} :
      (P : A → Type κ) (xs : List A)
      → ((x : A) → Memᴰ x xs → p x ≡ true → P x)
      → All P (filter p xs)
  unfolding filter
  All-filter P [] h = tt
  All-filter P (x ∷ xs) h = elim (Bool-cases (p x)) [
    | inl e ↦ rw e (h x (Memᴰ.head refl) e, All-filter P xs (λ y i. h y (Memᴰ.tail i)))
    | inr e ↦ rw e (All-filter P xs (λ y i. h y (Memᴰ.tail i)))
  ]

  All-kept {κ} : (P : A → Type κ) (xs : List A) → All P xs → All P (filter p xs)
  unfolding filter
  All-kept P [] all = tt
  All-kept P (x ∷ xs) (h, all) = elim (Bool-cases (p x)) [
    | inl e ↦ rw e (h, All-kept P xs all)
    | inr e ↦ rw e (All-kept P xs all)
  ]

  pub filter-cong : (q : A → Bool) (xs : List A) → ((x : A) → p x ≡ q x) → filter p xs ≡ filter q xs
  unfolding filter
  filter-cong q [] h = refl
  filter-cong q (x ∷ xs) h = rw (h x, filter-cong q xs h) refl

pub All_at {ℓ κ} :
    {A : Type ℓ} (P : A → Type κ) (pre : List A) (y : A) (rest : List A)
    → All P (pre ++ y ∷ rest)
    → P y
All_at P [] y rest (h, all) = h
All_at P (x ∷ pre) y rest (h, all) = All_at P pre y rest all

All-map {ℓ κ μ} :
    {A : Type ℓ} (P : A → Type κ) (Q : A → Type μ) (xs : List A)
    → ((x : A) → P x → Q x)
    → All P xs
    → All Q xs
All-map P Q [] f all = tt
All-map P Q (x ∷ xs) f (h, all) = (f x h, All-map P Q xs f all)

module _ {ℓ} {A : Type ℓ} (id_before : Text → Text → Bool) (fits : List A → Text → Bool)
    (project : Message → A) (order : IsOrder id_before) where
  abbrev pub nf : Message → Message → Bool
  nf = newest_first id_before fits project

  pub nf_trans : (a b c : Message) → nf a b ≡ true → nf b c ≡ true → nf a c ≡ true
  unfolding newest_first
  nf_trans a b c g h = ground (arith, order.trans c.message_id b.message_id a.message_id)

  nf_asym : (a b : Message) → nf a b ≡ true → nf b a ≡ false
  unfolding newest_first
  nf_asym a b h = ground (arith, order.asym b.message_id a.message_id)

  nf_total : (a b : Message) → a.message_id == b.message_id ≡ false → (nf a b || nf b a) ≡ true
  unfolding newest_first
  nf_total a b h = ground (arith, order.total a.message_id b.message_id h)

  pub own_ids-AllApart : (ms : List Message) → HaveOwnIds ms → AllApart nf ms
  own_ids-AllApart [] own = tt
  own_ids-AllApart (m ∷ ms) (h, own) = (All-map _ _ ms (nf_total m) h, own_ids-AllApart ms own)

  pub AllApart-filter :
      (p : Message → Bool) (ms : List Message) → AllApart nf ms → AllApart nf (filter p ms)
  unfolding filter
  AllApart-filter p [] apart = tt
  AllApart-filter p (m ∷ ms) (a, apart) = elim (Bool-cases (p m)) [
    | inl e ↦ rw e (All-kept p _ ms a, AllApart-filter p ms apart)
    | inr e ↦ rw e (AllApart-filter p ms apart)
  ]

  -- What comes after a message in a sorted list.
  filter-IsFirst :
      (y : Message) (rest : List Message) → IsFirst nf y rest → filter (nf y) rest ≡ rest
  unfolding filter
  filter-IsFirst y [] f = refl
  filter-IsFirst y (r ∷ rest) (h, f) = rw (h, filter-IsFirst y rest f) refl

  pub after_it :
      (pre : List Message) (y : Message) (rest : List Message)
      → IsSorted nf (pre ++ y ∷ rest)
      → filter (nf y) (pre ++ y ∷ rest) ≡ rest
  unfolding filter
  after_it [] y rest (f, sorted) =
      let no : nf y y ≡ false = ground (arith, nf_asym y y) in rw (no, filter-IsFirst y rest f) refl
  after_it (x ∷ pre) y rest (f, sorted) =
      rw (nf_asym x y (All_at (λ z. nf x z ≡ true) pre y rest f), after_it pre y rest sorted) refl
