-- ===== src/Core/Claims/Selections.antt =====
-- What `selectReleaseClaims` of packages/core/src/claim-selectors.mjs selects, by selector.
use agents_can_communicate.Base.{
  ◌≡◌, refl, ◌&&◌, some, List, [], ◌∷◌, arith, Text, ◌==◌, eq_iff, ◌↔◌, filter, Result, ok, Exit,
  traverse, found_in, >>=-eq-ok, Bool,
}
use mathlib.Core.List.{Memᴰ}
use mathlib.Core.List.Memᴰ
use agents_can_communicate.Base.Members.{Memᴰ-filter, filter-Memᴰ}
use agents_can_communicate.Base.Table.{Table, lookup, values}
use agents_can_communicate.Core.Records.{Claim}
use agents_can_communicate.Core.Claims.Release.{Selectors, only, select_release_claims}

ok_injective : {A : Type 0} {a b : A} → ok a ≡ ok b → a ≡ b
ok_injective h = cc

-- Two lists of one length, related one by one.
pub data Pairs {ℓ κ μ} {A : Type ℓ} {B : Type κ} (R : A → B → Type μ)
    : List A → List B → Type (ℓ ⊔ κ ⊔ μ) where
  none_left : Pairs R [] []
  pair :
      {x : A} {y : B} {xs : List A} {ys : List B}
      → R x y
      → Pairs R xs ys
      → Pairs R (x ∷ xs) (y ∷ ys)

traverse-Pairs :
    {A : Type 0} {B : Type 0} (f : A → Result B) (R : A → B → Type 0)
    → ((x : A) (y : B) → f x ≡ ok y → R x y)
    → (xs : List A) (ys : List B) → traverse f xs ≡ ok ys
    → Pairs R xs ys
unfolding traverse
traverse-Pairs f R g [] ys h = rw (← ok_injective h) Pairs.none_left
traverse-Pairs f R g (x ∷ xs) ys h =
    let (y, first, more) = >>=-eq-ok (f x) _ h in
    let (rest, others, whole) = >>=-eq-ok (traverse f xs) _ more in
    rw (← ok_injective whole) (Pairs.pair (g x y first) (traverse-Pairs f R g xs rest others))

-- The only claim of the session on the resource.
pub record IsOnly (claims : Table Claim) (session_id resource : Text) (c : Claim) : Type 0 where
  pub stored : Memᴰ c (values claims)
  pub on_resource : c.resource ≡ resource
  pub owned : c.owner_session_id ≡ session_id
  pub alone :
      (d : Claim)
      → Memᴰ d (values claims)
      → d.resource ≡ resource
      → d.owner_session_id ≡ session_id
      → d ≡ c

-- `all` selects the claims of the session and no other; ids select the claims that are stored
-- under them, in their order, whoever has them; resources select, in their order, the one claim
-- that the session has on each.
abbrev pub IsSelection : Selectors → (session_id : Text) → Table Claim → List Claim → Type 0
IsSelection Selectors.all session_id claims selected =
    (c : Claim) → Memᴰ c selected ↔ (Memᴰ c (values claims) × (c.owner_session_id ≡ session_id))
IsSelection (Selectors.claim_ids ids) session_id claims selected =
    Pairs (λ id c. lookup id claims ≡ some c) ids selected
IsSelection (Selectors.resources names) session_id claims selected =
    Pairs (λ r c. IsOnly claims session_id r c) names selected

only-singleton : (cs : List Claim) (c : Claim) → only cs ≡ ok c → cs ≡ c ∷ []
unfolding only
only-singleton [] c h = cc
only-singleton (x ∷ []) c h = cc
only-singleton (x ∷ y ∷ rest) c h = cc

only-IsOnly :
    (claims : Table Claim) (session_id resource : Text) (c : Claim)
    → only (
        filter
          (λ (d : Claim). (d.resource == resource) && (d.owner_session_id == session_id))
          (values claims))
      ≡ ok c
    → IsOnly claims session_id resource c
only-IsOnly claims sid r c h =
    let p : Claim → Bool = λ (d : Claim). (d.resource == r) && (d.owner_session_id == sid) in
    let one : filter p (values claims) ≡ c ∷ [] = only-singleton _ c h in
    let (stored, test) = filter-Memᴰ p c (values claims) (rw one (Memᴰ.head refl)) in
    record {
      stored = stored;
      on_resource = ground (arith, eq_iff c.resource r);
      owned = ground (arith, eq_iff c.owner_session_id sid);
      alone = λ d m n o.
          let i : Memᴰ d (filter p (values claims)) =
            Memᴰ-filter p d (values claims) m
              (ground (arith, eq_iff d.resource r, eq_iff d.owner_session_id sid)) in
          singleton d c (rw one at i);
    }
  where
    singleton : (d c : Claim) → Memᴰ d (c ∷ []) → d ≡ c
    singleton d c (Memᴰ.head e) = e
    singleton d c (Memᴰ.tail i) = absurd (Memᴰ.not-nil i)

pub select_release_claims-IsSelection :
    (selectors : Selectors) (session_id : Text) (claims : Table Claim) (selected : List Claim)
    → select_release_claims selectors session_id claims ≡ ok selected
    → IsSelection selectors session_id claims selected
unfolding select_release_claims
select_release_claims-IsSelection Selectors.all sid claims selected h = λ c.
    let p : Claim → Bool = λ (d : Claim). d.owner_session_id == sid in
    let same : filter p (values claims) ≡ selected = ok_injective h in
    (
      λ m.
          let (i, e) = filter-Memᴰ p c (values claims) (rw same m) in
          (i, (eq_iff c.owner_session_id sid).0 e),
      λ (i, e).
          let kept : Memᴰ c (filter p (values claims)) =
            Memᴰ-filter p c (values claims) i ((eq_iff c.owner_session_id sid).1 e) in
          rw same at kept,
    )
select_release_claims-IsSelection (Selectors.claim_ids ids) sid claims selected h =
    traverse-Pairs _ _ (λ id c e. found_in (lookup id claims) Exit.conflict c e) ids selected h
select_release_claims-IsSelection (Selectors.resources names) sid claims selected h =
    traverse-Pairs _ _ (λ r c e. only-IsOnly claims sid r c e) names selected h
