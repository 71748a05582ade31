-- ===== src/Core/Claims.antt =====
-- packages/core/src/claims.mjs and src/claim-selectors.mjs: claims on resources.
pub mod Release
pub mod Exclusion
pub mod Keeps
pub mod History
pub mod Selections
pub mod Removal
mod Examples
use agents_can_communicate.Base.{
  ℕ, ◌+◌, ◌*◌, ◌≡◌, refl, Bool, true, false, not, ◌&&◌, ◌||◌, Option, none, some, List, [], ◌∷◌,
  ◌++◌, arith, Text, codes, ◌==◌, if◌then◌else◌, ltb, leb, is_empty, is_some, any, filter, find,
  every, length, distinct, map, Result, ok, err, Exit, require, present, traverse,
}
use agents_can_communicate.Base.Results
use agents_can_communicate.Base.Table.{Table, lookup, insert, remove, values}
use agents_can_communicate.Protocol.Fields.{is_portable_id, is_text, is_resource_uri}
use agents_can_communicate.Protocol.Resources.{assert_matchable_resource, normalise_resource}
use agents_can_communicate.Core.Overlaps.{overlaps}
use agents_can_communicate.Core.Records.{
  Session, Claim, ClaimMode, Enforcement, Happening, Tx, is_open, is_exclusive,
}
use agents_can_communicate.Core.Transaction.{
  M, pure, lift, fail, gets, modify, ◌>>=◌, ◌>>◌, next_id, append, for_each,
}

-- `isLive`
unfoldable pub is_live : Claim → ℕ → Bool
is_live claim now = ltb now claim.expires_at

-- `requireOwner`: the session that was found must be open, and of the caller's generation.
unfoldable pub check_owner : Option Session → (generation : Text) → Result Session
unfolding is_open
check_owner none generation = err Exit.conflict
check_owner (some s) generation =
    if not (is_open s.state)
    then err Exit.conflict
    else if s.generation == generation
    then ok s
    else err Exit.conflict

-- One entry of the list that `claimResources` builds.
unfoldable pub claim_resource : Text → Result Text
unfolding assert_matchable_resource
claim_resource [] = err Exit.usage
claim_resource (c ∷ rest) = Results.◌>>=◌ (assert_matchable_resource (c ∷ rest)) λ r.
    if is_resource_uri (normalise_resource r) then ok (normalise_resource r) else err Exit.usage

-- `claimResources`: a list that is not empty, of different resources in normal form.
unfoldable pub claim_resources : List Text → Result (List Text)
unfolding claim_resource distinct
claim_resources [] = err Exit.usage
claim_resources (x ∷ xs) =
    Results.◌>>=◌ (traverse claim_resource (x ∷ xs))
      λ names. if distinct names then ok names else err Exit.usage

pub record ClaimInput : Type 0 where
  pub session_id : Text
  pub generation : Text
  pub mode : Option ClaimMode
  pub enforcement : Option Enforcement
  pub lease_seconds : Option ℕ
  pub reason : Text

abbrev pub or_else {ℓ} : {A : Type ℓ} → Option A → A → A
or_else none d = d
or_else (some a) d = a

-- `Date.parse(now) + (leaseSeconds ?? 1800) * 1000`
unfoldable pub lease_end : Option ℕ → ℕ → ℕ
lease_end lease now = now + or_else lease 1800 * 1000

-- `validateRecord("claim", claim)`, of the fields that are texts.
unfoldable pub is_valid_claim : Claim → Bool
is_valid_claim c =
    is_portable_id c.claim_id
    && is_portable_id c.workspace_id
    && is_portable_id c.owner_session_id
    && is_resource_uri c.resource
    && is_text 500 false c.reason
    && is_portable_id c.generation

-- A live claim that stands in the way of a request.
unfoldable pub blocks : ℕ → (owner : Text) → ClaimMode → (resource : Text) → Claim → Bool
unfolding is_live is_exclusive
blocks now owner mode resource claim =
    is_live claim now
    && overlaps claim.resource resource
    && not (claim.owner_session_id == owner)
    && (is_exclusive claim.mode || is_exclusive mode)

-- `conflicts.length > 0`
unfoldable pub has_conflict : ℕ → (owner : Text) → ClaimMode → List Text → List Claim → Bool
has_conflict now owner mode resources claims =
    any (λ (r : Text). any (blocks now owner mode r) claims) resources

-- `existing.find(…)`: the claim on this resource that its owner has, lapsed or not.
unfoldable pub own_claim : (owner resource : Text) → List Claim → Option Claim
own_claim owner resource =
    find (λ (c : Claim). (c.owner_session_id == owner) && (c.resource == resource))

-- `mine !== undefined && isLive(mine, now) ? mine.acquiredAt : now`
unfoldable pub held_since : Option Claim → ℕ → ℕ
unfolding is_live
held_since none now = now
held_since (some mine) now = if is_live mine now then mine.acquired_at else now

module _ (fresh : Text → ℕ → Text) where
  -- `mine?.claimId ?? createId("claim")`
  unfoldable pub claim_id_of : Option Claim → M Text
  unfolding next_id
  claim_id_of none = next_id fresh (codes "claim")
  claim_id_of (some mine) = pure mine.claim_id

  -- The record for one resource, and whether it is a new one.
  unfoldable pub claim_record :
      Session → ClaimInput → ℕ → List Claim → (resource : Text) → M (Bool × Claim)
  unfolding claim_id_of held_since own_claim lease_end next_id
  claim_record session input now existing resource = do
    let mine = own_claim session.session_id resource existing
    claim_id ← claim_id_of mine
    generation ← next_id fresh (codes "generation")
    let claim : Claim = record {
      claim_id = claim_id;
      workspace_id = session.workspace_id;
      owner_session_id = session.session_id;
      resource = resource;
      mode = or_else input.mode ClaimMode.exclusive;
      enforcement = or_else input.enforcement Enforcement.advisory;
      reason = input.reason;
      acquired_at = held_since mine now;
      expires_at = lease_end input.lease_seconds now;
      generation = generation;
    }
    lift (require (is_valid_claim claim) Exit.invalid)
    pure (not (is_some mine), claim)

  unfoldable pub claim_records :
      Session → ClaimInput → ℕ → List Claim → List Text → M (List (Bool × Claim))
  claim_records session input now existing [] = pure []
  claim_records session input now existing (r ∷ rs) = do
    first ← claim_record session input now existing r
    others ← claim_records session input now existing rs
    pure (first ∷ others)

  -- The second loop: put the record, and append its event.
  unfoldable pub write_claim : Session → ℕ → Bool × Claim → M (Unit {0})
  unfolding append
  write_claim session now (is_new, claim) = do
    modify (λ tx. record tx { claims = insert claim.claim_id claim tx.claims })
    append fresh session.workspace_id session.session_id now (
        if is_new
        then Happening.claim_acquired claim.claim_id claim.resource claim.mode
        else Happening.claim_renewed claim.claim_id (some (claim.resource, claim.mode)))

  -- `acquire`, after `ensureMaterialised`: `located` is the session that `locateSession` found
  -- before the transaction began.
  unfoldable pub acquire : Option Session → ClaimInput → List Text → ℕ → M (List Claim)
  acquire located input resources now = do
    session ← lift (check_owner located input.generation)
    names ← lift (claim_resources resources)
    current ← gets (λ tx. lookup input.session_id tx.sessions)
    owner ← lift (check_owner current input.generation)
    existing ← gets (λ tx. values tx.claims)
    let mode = or_else input.mode ClaimMode.exclusive
    lift (require (not (has_conflict now session.session_id mode names existing)) Exit.conflict)
    records ← claim_records session input now existing names
    for_each (write_claim session now) records
    pure (map (λ (r : Bool × Claim). r.1) records)
