-- ===== src/Core/Inbox.antt =====
-- packages/core/src/inbox.mjs: how the recipient of a message reads, acknowledges and answers it.
-- `located` is the session that `locateSession` found before the transaction began, `ephemeral`
-- what the ephemeral area holds for it.
pub mod Forward
mod Examples
use agents_can_communicate.Base.{
  ℕ, Bool, true, false, not, ◌&&◌, Option, none, some, List, [], ◌∷◌, ◌++◌, Text, codes, ◌==◌,
  if◌then◌else◌, Result, ok, err, Exit, require, present,
}
use agents_can_communicate.Base.Table.{lookup, insert}
use agents_can_communicate.Protocol.States.{ReceiptState, same_state, advance}
use agents_can_communicate.Protocol.Messages.{
  Message, MessageKind, Obligation, Artifact, asks_reply,
}
use agents_can_communicate.Core.Records.{Session, Receipt, Happening, Tx, is_open}
use agents_can_communicate.Core.Transaction.{M, pure, lift, gets, modify, ◌>>=◌, ◌>>◌, append}
use agents_can_communicate.Core.Receipts.{put_receipt, public_receipt}
use agents_can_communicate.Core.Conversations.{MessageInput}
use agents_can_communicate.Core.Conversations.Recording.{Recorded, record_message}

-- `requireOpen`, of the session that was found.
unfoldable pub require_open : Option Session → (generation : Text) → Result Session
unfolding is_open
require_open none generation = err Exit.conflict
require_open (some current) generation =
    if is_open current.state && current.generation == generation
    then ok current
    else err Exit.conflict

-- `tx.get(…) ?? store.ephemeral.get(…)`
unfoldable pub session_of : Option Session → Option Session → Option Session
session_of (some durable) ephemeral = some durable
session_of none ephemeral = ephemeral

-- A receipt from before contract 8 gains the obligation of its message.
unfoldable pub with_obligation : Option Obligation → Message → Option Obligation
with_obligation none m = some m.obligation
with_obligation (some o) m = some o

-- `extensions` aside: the receipt in its next state.
unfoldable pub moved_receipt : Message → Receipt → ReceiptState → (now : ℕ) → Receipt
unfolding with_obligation
moved_receipt m r next now = record r {
  state = next;
  updated_at = now;
  obligation = with_obligation r.obligation m;
}

-- `input.subject ?? `Re: ${original.message.subject}``
unfoldable pub reply_subject : Option Text → Message → Text
reply_subject none original = codes "Re: " ++ original.subject
reply_subject (some subject) original = subject

pub record ReplyInput : Type 0 where
  pub message_id : Text
  pub client_message_id : Text
  pub subject : Option Text
  pub body : Text
  pub artifacts : List Artifact

-- What `replyToMessage` has recorded.
unfoldable pub reply_message : ReplyInput → (original : Message) → MessageInput
unfolding reply_subject
reply_message input original = record {
  client_message_id = input.client_message_id;
  to_participant_ids = original.from_participant_id ∷ [];
  kind = MessageKind.answer;
  obligation = Obligation.nothing;
  subject = reply_subject input.subject original;
  body = input.body;
  in_reply_to = some original.message_id;
  artifacts = input.artifacts;
  handoff_payload = none;
  supersedes = none;
  withdraws = none;
  decision_change = none;
}

-- `receipt_id` is `receiptId`, a digest of the two ids (`createHash` of node:crypto).
module _ (receipt_id : Text → Text → Text) where
  -- `requireOwnedReceipt`
  unfoldable pub require_owned_receipt : Session → (message_id : Text) → M (Message × Receipt)
  require_owned_receipt session message_id = do
    stored ← gets (λ tx. lookup message_id tx.messages)
    found ← gets (λ tx. lookup (receipt_id message_id session.participant_id) tx.receipts)
    message ← lift (present stored Exit.conflict)
    receipt ← lift (present found Exit.conflict)
    pure (message, receipt)

  -- `ownReceipt`, of a receipt that is there, for a message that is there.
  unfoldable pub recoverable : Session → (message_id : Text) → M (Message × Receipt)
  recoverable session message_id = do
    found ← gets (λ tx. lookup (receipt_id message_id session.participant_id) tx.receipts)
    receipt ← lift (present found Exit.conflict)
    lift (
        require
          (receipt.message_id == message_id
            && receipt.recipient_participant_id == session.participant_id)
          Exit.conflict)
    stored ← gets (λ tx. lookup message_id tx.messages)
    message ← lift (present stored Exit.conflict)
    pure (message, receipt)

  module _ (fresh : Text → ℕ → Text) where
    -- The write of `advanceOwned`, of a receipt that changes state.
    unfoldable pub move_receipt :
        Session → Message → Receipt → (message_id : Text) → ReceiptState → (now : ℕ) → M Receipt
    unfolding put_receipt append moved_receipt
    move_receipt session message receipt message_id next now = do
      let receipt' = moved_receipt message receipt next now
      put_receipt (receipt_id message_id session.participant_id) receipt'
      append fresh session.workspace_id session.session_id now
          (Happening.message_moved next message_id session.participant_id)
      pure receipt'

    -- `advanceOwned`
    unfoldable pub advance_owned :
        Session → (message_id : Text) → ReceiptState → (now : ℕ) → M (Message × Receipt)
    unfolding move_receipt require_owned_receipt same_state
    advance_owned session message_id state now = do
      (message, receipt) ← require_owned_receipt session message_id
      next ← lift (advance receipt.state state)
      receipt' ←
          (if same_state next receipt.state
            then pure receipt
            else move_receipt session message receipt message_id next now)
      pure (message, receipt')

    -- `acknowledgeMessage`
    unfoldable pub acknowledge_message :
        (located ephemeral : Option Session) (session_id generation message_id : Text) (now : ℕ)
        → M Receipt
    unfolding session_of require_open public_receipt require_owned_receipt
    acknowledge_message located ephemeral session_id generation message_id now = do
      session ← lift (require_open located generation)
      current ← gets (λ tx. session_of (lookup session_id tx.sessions) ephemeral)
      still ← lift (require_open current generation)
      (message, receipt) ← require_owned_receipt session message_id
      lift (
          require
            (not (
              asks_reply message.obligation
              && not (same_state receipt.state ReceiptState.acknowledged)))
            Exit.conflict)
      (_, done) ← advance_owned session message_id ReceiptState.acknowledged now
      pure (public_receipt done)

    -- What `readInbox` does with a message that it selected: inspection moves no receipt back.
    unfoldable pub retrieve :
        Session → (message_id : Text) → Message → Receipt → (now : ℕ) → M Receipt
    unfolding advance_owned
    retrieve session message_id message receipt now =
        if same_state receipt.state ReceiptState.acknowledged
        then pure receipt
        else do (_, moved) ← advance_owned session message_id ReceiptState.retrieved now; pure moved

    -- `readInbox` of one message, by its id.
    unfoldable pub read_message :
        (located ephemeral : Option Session) (session_id generation message_id : Text) (now : ℕ)
        → M (Message × Receipt)
    unfolding recoverable retrieve
    read_message located ephemeral session_id generation message_id now = do
      session ← lift (require_open located generation)
      current ← gets (λ tx. session_of (lookup session_id tx.sessions) ephemeral)
      still ← lift (require_open current generation)
      (message, receipt) ← recoverable session message_id
      done ← retrieve session message_id message receipt now
      pure (message, public_receipt done)

    -- `replyToMessage`: `reply_id` is the id that was handed out before the transaction.
    unfoldable pub reply_to_message :
        (located : Option Session) (generation : Text)
        → ReplyInput
        → (reply_id : Text) (now : ℕ) → M (Message × Receipt)
    unfolding reply_message advance_owned
    reply_to_message located generation input reply_id now = do
      session ← lift (require_open located generation)
      (original, receipt) ← require_owned_receipt session input.message_id
      recorded ← record_message receipt_id fresh session (reply_message input original) now reply_id
      (_, done) ← advance_owned session input.message_id ReceiptState.acknowledged now
      pure (recorded.message, public_receipt done)
