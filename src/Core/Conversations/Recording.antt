-- ===== src/Core/Conversations/Recording.antt =====
-- packages/core/src/message-retry.mjs and `recordMessageInTransaction` of src/conversations.mjs.
use agents_can_communicate.Base.{
  ℕ, Bool, true, false, ◌&&◌, Option, none, some, List, [], Text, ◌==◌, if◌then◌else◌, is_none,
  find, Result, ok, err, Exit, require,
}
use agents_can_communicate.Base.Table.{lookup, insert, values}
use agents_can_communicate.Protocol.States.{ReceiptState}
use agents_can_communicate.Protocol.Messages.{Message}
use agents_can_communicate.Protocol.Messages.Records.{valid_message}
use agents_can_communicate.Core.Records.{Session, Receipt, Happening, Tx, is_open}
use agents_can_communicate.Core.Transaction.{
  M, pure, lift, gets, modify, ◌>>=◌, ◌>>◌, append, for_each,
}
use agents_can_communicate.Core.Receipts.{is_valid_receipt}
use agents_can_communicate.Core.Conversations.{
  MessageInput, resolve_addressees, addressed_recipients, thread_for,
}
use agents_can_communicate.Core.Conversations.Content.{same_content}
use agents_can_communicate.Core.Conversations.Changes.{prepare_decision_change}

-- `assertCurrentSession`
unfoldable pub assert_current_session : Option Session → Session → Result (Unit {0})
unfolding is_open
assert_current_session none session = err Exit.conflict
assert_current_session (some current) session =
    require (is_open current.state && current.generation == session.generation) Exit.conflict

-- The key by which `lookup("messageByClientKey", …)` finds a message.
unfoldable pub has_client_key : Session → (client_message_id : Text) → Message → Bool
has_client_key session client_message_id m =
    m.workspace_id == session.workspace_id
    && m.from_participant_id == session.participant_id
    && m.client_message_id == client_message_id

same_or_conflict : MessageInput → Option Message → Result (Option Message)
unfolding same_content
same_or_conflict input none = ok none
same_or_conflict input (some m) = if same_content m input then ok (some m) else err Exit.conflict

-- `findMessageRetry`
unfoldable pub find_message_retry : Tx → Session → MessageInput → Result (Option Message)
unfolding has_client_key same_or_conflict find values
find_message_retry tx session input =
    same_or_conflict input
      (find (has_client_key session input.client_message_id) (values tx.messages))

-- The record that is stored, of an input whose recipients are resolved.
unfoldable pub message_of :
    Session → MessageInput → (now : ℕ) → (message_id thread_id : Text) → Message
message_of session input now message_id thread_id = record {
  message_id = message_id;
  thread_id = thread_id;
  client_message_id = input.client_message_id;
  workspace_id = session.workspace_id;
  from_participant_id = session.participant_id;
  from_session_id = session.session_id;
  to_participant_ids = input.to_participant_ids;
  kind = input.kind;
  obligation = input.obligation;
  subject = input.subject;
  body = input.body;
  in_reply_to = input.in_reply_to;
  artifacts = input.artifacts;
  handoff_payload = input.handoff_payload;
  decision_change = input.decision_change;
  sent_at = now;
}

-- The receipt that a recipient begins with.
unfoldable pub queued_receipt : Message → (now : ℕ) → (participant_id : Text) → Receipt
queued_receipt m now participant_id = record {
  message_id = m.message_id;
  workspace_id = m.workspace_id;
  recipient_participant_id = participant_id;
  state = ReceiptState.queued;
  updated_at = now;
  offer = none;
  obligation = some m.obligation;
}

pub record Recorded : Type 0 where
  pub message : Message
  pub recipients : List Text
  pub created : Bool

-- `tx.put("message", id, message)`: no message of that id may be there.
unfoldable pub put_message : Text → Message → M (Unit {0})
put_message id m = do
  found ← gets (λ tx. lookup id tx.messages)
  lift (require (is_none found) Exit.conflict)
  modify (λ tx. record tx { messages = insert id m tx.messages })

-- `receipt_id` is `receiptId`, a digest of the two ids (`createHash` of node:crypto).
module _ (receipt_id : Text → Text → Text) (fresh : Text → ℕ → Text) where
  -- A round of the loop over the recipients: no receipt of that id may be there.
  unfoldable pub queue_receipt : Message → (now : ℕ) → (participant_id : Text) → M (Unit {0})
  unfolding queued_receipt
  queue_receipt m now participant_id = do
    lift (require (is_valid_receipt (queued_receipt m now participant_id)) Exit.invalid)
    found ← gets (λ tx. lookup (receipt_id m.message_id participant_id) tx.receipts)
    lift (require (is_none found) Exit.conflict)
    modify (λ tx. record tx {
      receipts =
          insert (receipt_id m.message_id participant_id) (queued_receipt m now participant_id)
            tx.receipts;
    })

  -- What follows the search for a retry.
  unfoldable pub record_unless :
      Session → MessageInput → (now : ℕ) → (message_id : Text) → Option Message → M Recorded
  unfolding message_of put_message queue_receipt append
  record_unless session input now message_id (some existing) =
      pure (record { message = existing; recipients = []; created = false })
  record_unless session input now message_id none = do
    thread ← gets (λ tx. thread_for tx message_id input.in_reply_to)
    thread_id ← lift thread
    message ← lift (valid_message (message_of session input now message_id thread_id))
    addressed ← gets (λ tx. addressed_recipients tx message.to_participant_ids session)
    recipients ← lift addressed
    put_message message_id message
    for_each (queue_receipt message now) recipients
    append fresh session.workspace_id session.session_id now
        (Happening.message_recorded message_id message.thread_id recipients)
    pure (record { message = message; recipients = recipients; created = true })

  -- `recordMessageInTransaction`
  unfoldable pub record_message :
      Session → MessageInput → (now : ℕ) → (message_id : Text) → M Recorded
  unfolding assert_current_session
  record_message session raw now message_id = do
    current ← gets (λ tx. lookup session.session_id tx.sessions)
    lift (assert_current_session current session)
    resolved ← gets (λ tx. resolve_addressees tx session raw.to_participant_ids)
    to ← lift resolved
    prepared ←
        gets (λ tx. prepare_decision_change tx (record raw { to_participant_ids = to }) session)
    input ← lift prepared
    retry ← gets (λ tx. find_message_retry tx session input)
    existing ← lift retry
    record_unless session input now message_id existing
