-- ===== src/Core/Claims/Removal.antt =====
-- What a release takes away: exactly the claims that it selected, each with the right to.
use agents_can_communicate.Base.{
  ℕ, ◌≡◌, refl, ◌∙◌, true, Option, none, some, List, [], ◌∷◌, arith, Text, eq_iff, if◌then◌else◌,
  includes, ok, required, ◌⊎◌, inl, inr, codes, ap, All, every-All, Bool-cases, ◌==◌,
}
use mathlib.Core.Option.{some-injective}
use agents_can_communicate.Base.Table.{Table, lookup, remove, lookup-remove}
use agents_can_communicate.Core.Records.{Claim, Session, Tx}
use agents_can_communicate.Core.Transaction.{for_each}
use agents_can_communicate.Core.Transaction.Posts.{
  Post, Post-bind, Post-pure, Post-weaken, Post-bind-lift, Post-bind-gets, Post-bind-modify,
  Post-for_each_cons, Post-for_each_nil,
}
use agents_can_communicate.Core.Claims.Release.{
  Selectors, remove_claim, remove_claims, may_remove, is_authority,
}
use agents_can_communicate.Core.Claims.Selections.{IsSelection, select_release_claims-IsSelection}
use agents_can_communicate.Core.Claims.{check_owner}
use agents_can_communicate.Core.Claims.Keeps.{append-claims}

abbrev pub ids_of : List Claim → List Text
ids_of [] = []
ids_of (c ∷ cs) = c.claim_id ∷ ids_of cs

-- The claims of one state are those of another, less the ones of the given ids.
abbrev pub LessIds : List Text → Table Claim → Table Claim → Type 0
LessIds ids before after =
    (k : Text) → lookup k after ≡ (if includes k ids then none else lookup k before)

module _ (fresh : Text → ℕ → Text) (session : Session) (authority : Option Text)
    (reason : Option Text) (now : ℕ) where
  remove_claim-claims :
      (c : Claim) (tx : Tx)
      → Post
          (remove_claim fresh session authority reason now c)
          tx
          (λ _ s. s.claims ≡ remove c.claim_id tx.claims)
  unfolding remove_claim
  remove_claim-claims c tx =
      Post-bind-modify _ _ tx (Post-weaken _ _ (append-claims fresh now _ _ _ _) λ _ t e. e)

  remove_all :
      (cs : List Claim) (tx : Tx)
      → Post
          (for_each (remove_claim fresh session authority reason now) cs)
          tx
          (λ _ s. LessIds (ids_of cs) tx.claims s.claims)
  unfolding includes
  remove_all [] tx = Post-for_each_nil _ tx (λ k. refl)
  remove_all (c ∷ cs) tx = Post-for_each_cons _ c cs tx (remove_claim-claims c tx) λ s e.
      Post-weaken _ s (remove_all cs s) λ _ t less k.
        less k
        ∙ rw e (
            ground (
              arith,
              lookup-remove c.claim_id k tx.claims,
              eq_iff k c.claim_id,
              eq_iff c.claim_id k,
            ))

check_owner-eq :
    (o : Option Session) (generation : Text) (s : Session)
    → check_owner o generation ≡ ok s
    → o ≡ some s
unfolding check_owner
check_owner-eq none generation s h = cc
check_owner-eq (some o) generation s h = ground arith

-- The claim belongs to the session, or a human or a policy has its removal.
abbrev pub Allowed : Text → Option Text → Claim → Type 0
Allowed session_id authority claim =
    (claim.owner_session_id ≡ session_id)
    ⊎ ((authority ≡ some (codes "human")) ⊎ (authority ≡ some (codes "policy")))

is_authority_cases :
    (authority : Option Text)
    → is_authority authority ≡ true
    → (authority ≡ some (codes "human")) ⊎ (authority ≡ some (codes "policy"))
unfolding is_authority
is_authority_cases none h = cc
is_authority_cases (some name) h = elim (Bool-cases (name == codes "human")) [
  | inl e ↦ inl (ap some ((eq_iff name (codes "human")).0 e))
  | inr e ↦ inr (ap some ((eq_iff name (codes "policy")).0 (ground arith)))
]

allowed : (sid : Text) (a : Option Text) (c : Claim) → may_remove sid a c ≡ true → Allowed sid a c
unfolding may_remove
allowed sid a c h = elim (Bool-cases (c.owner_session_id == sid)) [
  | inl e ↦ inl ((eq_iff c.owner_session_id sid).0 e)
  | inr e ↦ inr (is_authority_cases a (ground arith))
]

-- What a release of some selection comes to.
abbrev pub Released : Selectors → Text → Option Text → Tx → List Claim → Tx → Type 0
Released selectors session_id authority tx selected s =
    IsSelection selectors session_id tx.claims selected
    × LessIds (ids_of selected) tx.claims s.claims
    × All (Allowed session_id authority) selected

remove_claims-Released :
    (fresh : Text → ℕ → Text) (session : Session) (ephemeral : Option Session)
    (session_id generation : Text) (selectors : Selectors) (authority : Option Text)
    (reason : Option Text) (now : ℕ) (tx : Tx)
    → Post
        (remove_claims fresh
          (some session)
          ephemeral
          session_id
          generation
          selectors
          authority
          reason
          now)
        tx
        (Released selectors session.session_id authority tx)
unfolding remove_claims
remove_claims-Released fresh session ephemeral sid generation selectors authority reason now tx =
    Post-bind-lift _ _ tx λ owner same. Post-bind-gets _ _ tx (
      Post-bind-lift _ _ tx λ current _. Post-bind-gets _ _ tx (
        Post-bind-lift _ _ tx λ selected chosen. Post-bind-lift _ _ tx λ u may.
          Post-bind _ _ tx (remove_all fresh owner authority reason now selected tx) λ _ t less.
            Post-pure _ t (
              rw (some-injective _ _ (check_owner-eq _ _ _ same))
                  (select_release_claims-IsSelection selectors _ _ selected chosen),
              less,
              rw (some-injective _ _ (check_owner-eq _ _ _ same))
                  (every-All _ _ (allowed _ authority) selected (required _ _ u may)),
            )))

-- A release that returns has selected what its selectors say: all claims of the session and no
-- other, those that are stored under the given ids, or the only one of the session on each given
-- resource. It has removed exactly these: any other claim stands as it did. Each of them belonged to
-- the session, or the authority was `human` or `policy`; any other authority gives no right.
pub remove_claims_exact :
    (fresh : Text → ℕ → Text) (session : Session) (ephemeral : Option Session)
    (session_id generation : Text) (selectors : Selectors) (authority : Option Text)
    (reason : Option Text) (now : ℕ) (tx : Tx) (selected : List Claim) (tx' : Tx)
    → remove_claims fresh
        (some session)
        ephemeral
        session_id
        generation
        selectors
        authority
        reason
        now
        tx
      ≡ ok (selected, tx')
    → Released selectors session.session_id authority tx selected tx'
remove_claims_exact fresh session ephemeral sid generation selectors authority reason now tx
      selected tx' h =
    (remove_claims-Released fresh session ephemeral sid generation selectors authority reason now
        tx).holds
      selected tx' h
