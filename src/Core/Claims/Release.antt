-- ===== src/Core/Claims/Release.antt =====
-- `renewClaim` and `removeClaims` of packages/core/src/claims.mjs, and the selectors of
-- src/claim-selectors.mjs.
use agents_can_communicate.Base.{
  ℕ, Bool, true, false, ◌&&◌, ◌||◌, Option, none, some, List, [], ◌∷◌, Text, codes, ◌==◌,
  if◌then◌else◌, is_none, filter, every, distinct, Result, ok, err, Exit, require, present,
  traverse,
}
use agents_can_communicate.Base.Results
use agents_can_communicate.Base.Table.{Table, lookup, insert, remove, values}
use agents_can_communicate.Protocol.Fields.{is_portable_id}
use agents_can_communicate.Core.Records.{Session, Claim, Happening}
use agents_can_communicate.Core.Transaction.{
  M, pure, lift, gets, modify, ◌>>=◌, ◌>>◌, next_id, append, for_each,
}
use agents_can_communicate.Core.Claims.{
  check_owner, claim_resources, is_live, lease_end, is_valid_claim,
}

pub data Selectors : Type 0 where
  all : Selectors
  claim_ids resources : List Text → Selectors

-- `releaseSelectors(input)`: which of the three the caller gave (`all` with its value).
pub record ReleaseInput : Type 0 where
  pub claim_ids : Option (List Text)
  pub resources : Option (List Text)
  pub all : Option Bool
  pub authority : Option Text

nonempty_ids : List Text → Result (List Text)
unfolding distinct every
nonempty_ids [] = err Exit.usage
nonempty_ids (x ∷ xs) =
    if every is_portable_id (x ∷ xs) && distinct (x ∷ xs) then ok (x ∷ xs) else err Exit.usage

chosen : Option (List Text) → Option (List Text) → Option Bool → Result Selectors
unfolding nonempty_ids claim_resources
chosen none none (some true) = ok Selectors.all
chosen none (some rs) none =
    Results.◌>>=◌ (claim_resources rs) λ names. ok (Selectors.resources names)
chosen (some ids) none none =
    Results.◌>>=◌ (nonempty_ids ids) λ names. ok (Selectors.claim_ids names)
chosen _ _ _ = err Exit.usage

unfoldable pub release_selectors : ReleaseInput → Result Selectors
unfolding chosen
release_selectors input =
    Results.◌>>=◌ (chosen input.claim_ids input.resources input.all)
      λ selectors. if is_none input.authority then ok selectors else err Exit.usage

-- Of the claims of this session on a resource there must be exactly one.
unfoldable pub only : List Claim → Result Claim
only [] = err Exit.invalid
only (c ∷ []) = ok c
only (c ∷ d ∷ rest) = err Exit.invalid

-- `selectReleaseClaims`
unfoldable pub select_release_claims :
    Selectors → (session_id : Text) → Table Claim → Result (List Claim)
unfolding only
select_release_claims Selectors.all session_id claims =
    ok (filter (λ (c : Claim). c.owner_session_id == session_id) (values claims))
select_release_claims (Selectors.claim_ids ids) session_id claims =
    traverse (λ (id : Text). present (lookup id claims) Exit.conflict) ids
select_release_claims (Selectors.resources names) session_id claims =
    traverse
      (λ (r : Text). only (
        filter (λ (c : Claim). (c.resource == r) && (c.owner_session_id == session_id))
          (values claims)))
      names

-- `authority === "human" || authority === "policy"`, of whatever text the caller gave.
unfoldable pub is_authority : Option Text → Bool
is_authority none = false
is_authority (some name) = name == codes "human" || name == codes "policy"

-- `owned || authority === "human" || authority === "policy"`
unfoldable pub may_remove : (session_id : Text) → Option Text → Claim → Bool
unfolding is_authority
may_remove session_id authority claim =
    (claim.owner_session_id == session_id) || is_authority authority

-- `tx.get(…) ?? (allowEphemeral ? store.ephemeral.get(…) : null)`
unfoldable pub or_ephemeral : Option Session → Option Session → Option Session
or_ephemeral (some durable) ephemeral = some durable
or_ephemeral none ephemeral = ephemeral

module _ (fresh : Text → ℕ → Text) where
  -- The second loop of `removeClaims`.
  unfoldable pub remove_claim : Session → Option Text → Option Text → ℕ → Claim → M (Unit {0})
  unfolding append
  remove_claim session authority reason now claim = do
    modify (λ tx. record tx { claims = remove claim.claim_id tx.claims })
    append fresh claim.workspace_id session.session_id now (
        if claim.owner_session_id == session.session_id
        then Happening.claim_released claim.claim_id authority reason claim.generation
        else Happening.claim_force_released claim.claim_id authority reason claim.generation)

  -- `removeClaims`: `located` was found before the transaction, `ephemeral` is what the ephemeral
  -- area holds for this session.
  unfoldable pub remove_claims :
      (located ephemeral : Option Session) (session_id generation : Text)
      → Selectors
      → Option Text
      → Option Text
      → (now : ℕ) → M (List Claim)
  remove_claims located ephemeral session_id generation selectors authority reason now = do
    session ← lift (check_owner located generation)
    current ← gets (λ tx. or_ephemeral (lookup session_id tx.sessions) ephemeral)
    owner ← lift (check_owner current generation)
    claims ← gets (λ tx. tx.claims)
    selected ← lift (select_release_claims selectors session.session_id claims)
    lift (require (every (may_remove session.session_id authority) selected) Exit.conflict)
    for_each (remove_claim session authority reason now) selected
    pure selected

  -- `renewClaim`
  unfoldable pub renew_claim :
      (located : Option Session) (session_id generation claim_id : Text) (lease : Option ℕ)
      (now : ℕ)
      → M Claim
  unfolding next_id append
  renew_claim located session_id generation claim_id lease now = do
    session ← lift (check_owner located generation)
    current ← gets (λ tx. lookup session_id tx.sessions)
    owner ← lift (check_owner current generation)
    found ← gets (λ tx. lookup claim_id tx.claims)
    existing ← lift (present found Exit.conflict)
    lift (require (existing.owner_session_id == session.session_id) Exit.conflict)
    lift (require (is_live existing now) Exit.conflict)
    renewal ← next_id fresh (codes "generation")
    let renewed = record existing { expires_at = lease_end lease now; generation = renewal }
    lift (require (is_valid_claim renewed) Exit.invalid)
    modify (λ tx. record tx { claims = insert claim_id renewed tx.claims })
    append fresh existing.workspace_id session.session_id now
        (Happening.claim_renewed claim_id none)
    pure renewed
