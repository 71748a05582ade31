-- ===== src/Core/Conversations/Changes.antt =====
-- packages/core/src/decision-changes.mjs: a decision that replaces or withdraws others goes to
-- everyone whom those concern.
use agents_can_communicate.Base.{
  not, ◌&&◌, Option, none, some, List, [], ◌∷◌, ◌++◌, map, Text, ◌==◌, if◌then◌else◌, is_none,
  distinct, filter, Result, ok, err, Exit, require, traverse, ◌>>=◌, ◌>>◌,
}
use agents_can_communicate.Base.Table.{lookup, values}
use agents_can_communicate.Base.Order.{sort, unique}
use agents_can_communicate.Protocol.Fields.{is_portable_id}
use agents_can_communicate.Protocol.Messages.{
  Message, ChangeAction, DecisionChange, is_decision, assert_decision_change,
}
use agents_can_communicate.Core.Records.{Session, Receipt, Tx}
use agents_can_communicate.Core.Conversations.{MessageInput}

-- One decision that a change names.
unfoldable pub change_target : Tx → Session → (message_id : Text) → Result Message
unfolding lookup is_decision
change_target tx session message_id = elim (lookup message_id tx.messages) [
  | none ↦ err Exit.invalid
  | some m ↦
      if is_decision m.kind && m.workspace_id == session.workspace_id
      then ok m
      else err Exit.invalid
]

-- The recipients that have a receipt for one of these messages.
receivers : Tx → Session → List Message → List Text
unfolding filter values
receivers tx session [] = []
receivers tx session (m ∷ ms) =
    map (λ (r : Receipt). r.recipient_participant_id)
      (filter
        (λ (r : Receipt). r.workspace_id == session.workspace_id && r.message_id == m.message_id)
        (values tx.receipts))
    ++ receivers tx session ms

inherited : Tx → Session → List Message → List Text
unfolding receivers
inherited tx session targets =
    map (λ (m : Message). m.from_participant_id) targets ++ receivers tx session targets

-- The input with its change, sent to all whom the targets concern but the sender.
unfoldable pub with_change : Tx → Session → MessageInput → DecisionChange → Result MessageInput
unfolding change_target inherited sort unique distinct filter traverse
with_change tx session input change = do
  targets ← traverse (change_target tx session) change.message_ids
  require (distinct input.to_participant_ids) Exit.usage
  let others =
      filter (λ (id : Text). not (id == session.participant_id)) (inherited tx session targets)
  ok (record input {
    decision_change = some change;
    to_participant_ids = sort (unique (input.to_participant_ids ++ others));
  })

-- The change that `supersedes` or `withdraws` asks for.
unfoldable pub asked_change : MessageInput → ChangeAction → List Text → Result DecisionChange
unfolding assert_decision_change sort
asked_change input action message_ids = do
  require (is_decision input.kind) Exit.usage
  change ←
      assert_decision_change is_portable_id (record { action = action; message_ids = message_ids })
  ok (record change { message_ids = sort change.message_ids })

prepare :
    Tx → Session → MessageInput → Option (List Text) → Option (List Text) → Result MessageInput
unfolding asked_change with_change
prepare tx session input none none = ok input
prepare tx session input (some ids) none =
    asked_change input ChangeAction.replace ids >>= λ change. with_change tx session input change
prepare tx session input none (some ids) =
    asked_change input ChangeAction.withdraw ids >>= λ change. with_change tx session input change
prepare tx session input (some ids) (some others) = err Exit.usage

-- `prepareDecisionChange`
unfoldable pub prepare_decision_change : Tx → MessageInput → Session → Result MessageInput
unfolding prepare
prepare_decision_change tx input session =
    require (is_none input.decision_change) Exit.usage
    >> prepare tx session input input.supersedes input.withdraws
