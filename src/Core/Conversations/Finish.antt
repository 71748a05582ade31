-- ===== src/Core/Conversations/Finish.antt =====
-- `finishSession` of packages/core/src/conversations.mjs: a handoff, and then the session is over.
-- Where it is a retry, `reconstructFinishRetry` (Core/FinishRetry) reads what the first one released
-- from the log, here of the state that the transaction leaves.
pub mod Ends
pub mod Logged
pub mod Roundtrip
use agents_can_communicate.Base.{
  ℕ, Bool, true, false, not, ◌&&◌, Option, none, some, List, [], ◌∷◌, ◌++◌, map, Text, codes, ◌==◌,
  if◌then◌else◌, is_empty, filter, Result, ok, err, Exit, require, present,
}
use agents_can_communicate.Base.Table.{lookup, insert, remove, values}
use agents_can_communicate.Protocol.Messages.{
  Message, MessageKind, Obligation, Artifact, Handoff, HandoffStatus,
}
use agents_can_communicate.Core.Records.{Session, SessionState, Claim, Happening, Tx, is_open}
use agents_can_communicate.Core.Transaction.{
  M, pure, lift, gets, modify, ◌>>=◌, ◌>>◌, next_id, append, for_each,
}
use agents_can_communicate.Core.FinishRetry.{
  Released, project_released_claim, reconstruct_finish_retry,
}
use agents_can_communicate.Core.Conversations.{MessageInput, resolve_addressees}
use agents_can_communicate.Core.Conversations.Recording.{
  Recorded, find_message_retry, record_message,
}

-- What the caller gives, with the defaults that are lists filled in.
pub record FinishInput : Type 0 where
  pub client_message_id : Text
  pub to_participant_id : Option Text
  pub goal : Text
  pub handoff_payload : Handoff
  pub artifacts : List Artifact

status_name : HandoffStatus → Text
status_name HandoffStatus.complete = codes "complete"
status_name HandoffStatus.partial = codes "partial"
status_name HandoffStatus.blocked = codes "blocked"

titled : (label : Text) → List Text → List Text
titled label [] = []
titled label (item ∷ items) =
    (label ++ codes ":") ∷ map (λ (i : Text). codes "- " ++ i) (item ∷ items)

join_lines : List Text → Text
join_lines [] = []
join_lines (line ∷ []) = line
join_lines (line ∷ next ∷ lines) = line ++ 10 ∷ join_lines (next ∷ lines)

-- `handoffBody`
unfoldable pub handoff_body : (goal : Text) → Handoff → Text
unfolding status_name titled join_lines
handoff_body goal h = join_lines (
    goal ∷ status_name h.status ∷ titled (codes "completed") h.completed
    ++ titled (codes "remaining") h.remaining
    ++ titled (codes "blockers") h.blockers)

addressee : Option Text → List Text
addressee none = []
addressee (some p) = p ∷ []

asks_of : Option Text → Obligation
asks_of none = Obligation.nothing
asks_of (some p) = Obligation.acknowledge

-- `messageInput`
unfoldable pub finish_message : FinishInput → MessageInput
unfolding handoff_body addressee asks_of
finish_message input = record {
  client_message_id = input.client_message_id;
  to_participant_ids = addressee input.to_participant_id;
  kind = MessageKind.handoff;
  obligation = asks_of input.to_participant_id;
  subject = input.goal;
  body = handoff_body input.goal input.handoff_payload;
  in_reply_to = none;
  artifacts = input.artifacts;
  handoff_payload = some input.handoff_payload;
  supersedes = none;
  withdraws = none;
  decision_change = none;
}

-- `tx.list("claim", claim => claim.ownerSessionId === session.sessionId)`
unfoldable pub claims_of : (session_id : Text) → Tx → List Claim
unfolding filter values
claims_of session_id tx =
    filter (λ (c : Claim). c.owner_session_id == session_id) (values tx.claims)

-- The session that the transaction reads, of the generation that finishes.
unfoldable pub check_generation : Option Session → Session → Result Session
check_generation none session = err Exit.conflict
check_generation (some current) session =
    if current.generation == session.generation then ok current else err Exit.conflict

-- `{ ...current, state: "closed", heartbeatAt: now }`
unfoldable pub closed_session : Session → (now : ℕ) → Session
closed_session current now = record current { state = SessionState.closed; heartbeat_at = now }

pub record Finished : Type 0 where
  pub retry : Bool
  pub message : Message
  pub released : List Released
  pub session : Session

module _ (receipt_id : Text → Text → Text) (fresh : Text → ℕ → Text) where
  -- One claim that is given back.
  unfoldable pub give_back : Session → (now : ℕ) → Claim → M (Unit {0})
  unfolding append
  give_back session now claim = do
    modify (λ tx. record tx { claims = remove claim.claim_id tx.claims })
    append fresh session.workspace_id session.session_id now
        (Happening.claim_released claim.claim_id none none claim.generation)

  unfoldable pub close_session : Session → Session → (now : ℕ) → Message → List Claim → M Session
  unfolding append closed_session
  close_session session current now message released = do
    let closed = closed_session current now
    modify (λ tx. record tx { sessions = insert session.session_id closed tx.sessions })
    append fresh session.workspace_id session.session_id now (
        Happening.session_finished message.message_id session.generation
          (map (λ (c : Claim). c.claim_id) released))
    pure closed

  -- What follows the search for a retry.
  unfoldable pub finish_unless :
      Session → Session → FinishInput → (now : ℕ) → Option Message → M Finished
  unfolding finish_message next_id project_released_claim
  finish_unless session current input now (some existing) = do
    lift (require (existing.from_session_id == session.session_id) Exit.conflict)
    pure (record { retry = true; message = existing; released = []; session = current })
  finish_unless session current input now none = do
    lift (require (is_open current.state) Exit.conflict)
    released ← gets (claims_of session.session_id)
    message_id ← next_id fresh (codes "message")
    recorded ← record_message receipt_id fresh session (finish_message input) now message_id
    for_each (give_back session now) released
    closed ← close_session session current now recorded.message released
    pure (record {
      retry = false;
      message = recorded.message;
      released = map project_released_claim released;
      session = closed;
    })

  -- The transaction of `finishSession`; `session` was located before it began.
  unfoldable pub finish_in_transaction : Session → FinishInput → (now : ℕ) → M Finished
  unfolding check_generation find_message_retry resolve_addressees
  finish_in_transaction session input now = do
    found ← gets (λ tx. lookup session.session_id tx.sessions)
    current ← lift (check_generation found session)
    resolved ← gets (λ tx. resolve_addressees tx session (finish_message input).to_participant_ids)
    to ← lift resolved
    retry ← gets (λ tx.
        find_message_retry tx session (record (finish_message input) { to_participant_ids = to }))
    existing ← lift retry
    finish_unless session current input now existing

  -- What follows the transaction.
  unfoldable pub after_transaction : (retry : Bool) → Finished → M Finished
  unfolding reconstruct_finish_retry
  after_transaction false outcome = pure outcome
  after_transaction true outcome = do
    read ← gets (λ tx.
        reconstruct_finish_retry outcome.session outcome.message.message_id tx.events
          (values tx.claims))
    released ← lift read
    pure (record outcome { released = released })

  -- `finishSession`
  unfoldable pub finish_session : Session → FinishInput → (now : ℕ) → M Finished
  unfolding finish_in_transaction after_transaction
  finish_session session input now = do
    outcome ← finish_in_transaction session input now
    after_transaction outcome.retry outcome
