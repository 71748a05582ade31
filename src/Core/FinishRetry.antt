-- ===== src/Core/FinishRetry.antt =====
-- packages/core/src/finish-retries.mjs: what a finish released is read back from the log of events,
-- where the finish is sent once more. A position in the log is the split of the log there.
pub mod Facts
pub mod Reading
use agents_can_communicate.Base.{
  ℕ, Bool, true, false, not, ◌&&◌, ◌||◌, Option, none, some, List, [], ◌∷◌, ◌++◌, Text, ◌==◌,
  if◌then◌else◌, any, distinct, is_none, Result, ok, err, Exit, require, present, ◌>>=◌, ◌>>◌,
}
use agents_can_communicate.Core.Records.{Session, Claim, ClaimMode, Happening, Event, is_open}

-- `projectReleasedClaim`: the id, the resource and the mode.
abbrev pub Released : Type 0
Released = Text × (Text × ClaimMode)

unfoldable pub project_released_claim : Claim → Released
project_released_claim c = (c.claim_id, (c.resource, c.mode))

-- The first event that passes a test, with what comes before and after it.
unfoldable pub split_at : (Event → Bool) → List Event → Option (List Event × (Event × List Event))
split_at p [] = none
split_at p (e ∷ es) =
    if p e
    then some ([], (e, es))
    else elim (split_at p es) [ none ↦ none | some (before, found) ↦ some (e ∷ before, found) ]

records : (message_id : Text) → Happening → Bool
records message_id (Happening.message_recorded id _ _) = id == message_id
records message_id _ = false

-- `event.type === "session.opened"`, and of a close, however it came about
opens : Happening → Bool
opens (Happening.session_opened _) = true
opens _ = false

closes : Happening → Bool
closes Happening.session_closed = true
closes (Happening.session_finished _ _ _) = true
closes _ = false

unfoldable pub is_record : (message_id session_id : Text) → Event → Bool
unfolding records
is_record message_id session_id e =
    records message_id e.happening && e.actor_session_id == session_id

unfoldable pub is_opened : (session_id : Text) → Event → Bool
unfolding opens
is_opened session_id e = opens e.happening && e.actor_session_id == session_id

unfoldable pub is_closed : (session_id : Text) → Event → Bool
unfolding closes
is_closed session_id e = closes e.happening && e.actor_session_id == session_id

-- The released claims that the close names, where its payload is that of this finish.
unfoldable pub finish_ids : (message_id generation : Text) → Happening → Option (List Text)
unfolding distinct
finish_ids message_id generation (Happening.session_finished id of_generation ids) =
    if (id == message_id && of_generation == generation) && distinct ids then some ids else none
finish_ids message_id generation _ = none

gives_back : (claim_id : Text) → Happening → Bool
gives_back claim_id (Happening.claim_released id authority reason _) =
    id == claim_id && is_none authority && is_none reason
gives_back claim_id _ = false

-- The events between are the releases of these claims by the session, in order.
unfoldable pub are_releases : (session_id : Text) → List Event → List Text → Bool
unfolding gives_back
are_releases session_id [] [] = true
are_releases session_id (e ∷ es) (id ∷ ids) =
    gives_back id e.happening && e.actor_session_id == session_id && are_releases session_id es ids
are_releases session_id _ _ = false

-- What an event says of a claim.
unfoldable pub fact_of : (claim_id : Text) → Happening → Option (Text × ClaimMode)
fact_of claim_id (Happening.claim_acquired id resource mode) =
    if id == claim_id then some (resource, mode) else none
fact_of claim_id (Happening.claim_renewed id facts) = if id == claim_id then facts else none
fact_of claim_id _ = none

or_before {ℓ} : {A : Type ℓ} → Option A → Option A → Option A
or_before (some a) earlier = some a
or_before none earlier = earlier

-- `findLast`
unfoldable pub last_fact : (claim_id : Text) → List Event → Option (Text × ClaimMode)
unfolding fact_of or_before
last_fact claim_id [] = none
last_fact claim_id (e ∷ es) = or_before (last_fact claim_id es) (fact_of claim_id e.happening)

-- `claimProjection`, of each release; `before` is the log up to it.
unfoldable pub claim_projections :
    (before : List Event) → List Event → List Text → Result (List Released)
unfolding last_fact
claim_projections before (e ∷ es) (id ∷ ids) =
    let rest = claim_projections (before ++ e ∷ []) es ids in
    present (last_fact id (before ++ e ∷ [])) Exit.conflict >>= λ facts.
    (rest >>= λ others. ok ((id, facts) ∷ others))
claim_projections before _ _ = ok []

-- From the close on, once the record of the message was found.
unfoldable pub released_by :
    Session
    → (message_id : Text) → (before between : List Event) → Event
    → List Claim
    → Result (List Released)
unfolding finish_ids are_releases claim_projections any
released_by session message_id before between close claims =
    present (finish_ids message_id session.generation close.happening) Exit.conflict >>= λ ids.
    (require (are_releases session.session_id between ids) Exit.conflict
      >> (claim_projections before between ids >>= λ released.
          (require (not (any (λ (c : Claim). c.owner_session_id == session.session_id) claims))
              Exit.conflict
            >> ok released)))

-- `reconstructFinishRetry`
unfoldable pub reconstruct_finish_retry :
    Session → (message_id : Text) → List Event → List Claim → Result (List Released)
unfolding split_at is_record is_opened is_closed released_by any
reconstruct_finish_retry session message_id events claims =
    require (not (is_open session.state)) Exit.conflict
    >> (present (split_at (is_record message_id session.session_id) events) Exit.conflict
        >>= λ (before, (recorded, rest)).
            (require (not (any (is_opened session.session_id) rest)) Exit.conflict
              >> (present (split_at (is_closed session.session_id) rest) Exit.conflict
                  >>= λ (between, (close, later)).
                      released_by session message_id (before ++ recorded ∷ []) between close
                        claims)))
