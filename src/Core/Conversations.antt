-- ===== src/Core/Conversations.antt =====
-- packages/core/src/conversations.mjs: whom a message is addressed to, and the input of a message.
pub mod Content
pub mod Changes
pub mod Recording
pub mod Recipients
pub mod Delivery
pub mod Retries
pub mod Finish
use agents_can_communicate.Base.{
  ℕ, ◌≡◌, refl, Bool, true, false, not, ◌&&◌, Option, none, some, List, [], ◌∷◌, map, arith, Text,
  ◌==◌, if◌then◌else◌, includes, distinct, filter, every, is_empty, Result, ok, err, Exit, traverse,
  present,
}
use agents_can_communicate.Base.Table.{lookup, values}
use agents_can_communicate.Base.Order.{sort, unique}
use agents_can_communicate.Protocol.Messages.{
  Message, MessageKind, Obligation, Artifact, Handoff, DecisionChange,
}
use agents_can_communicate.Core.Records.{Session, Participant, Tx, is_open}

-- `input` of `recordMessageInTransaction`; an option is what the caller may leave out.
pub record MessageInput : Type 0 where
  pub client_message_id : Text
  pub to_participant_ids : List Text
  pub kind : MessageKind
  pub obligation : Obligation
  pub subject : Text
  pub body : Text
  pub in_reply_to : Option Text
  pub artifacts : List Artifact
  pub handoff_payload : Option Handoff
  pub supersedes : Option (List Text)
  pub withdraws : Option (List Text)
  pub decision_change : Option DecisionChange

-- `new Set(tx.list("participant").map(item => item.participantId))`
unfoldable pub known_participants : Tx → List Text
unfolding values
known_participants tx = map (λ (p : Participant). p.participant_id) (values tx.participants)

-- The participants, but for one, whose session is open and passes a test.
unfoldable pub open_participants : (Session → Bool) → (but : Text) → Tx → List Text
unfolding is_open filter sort unique values
open_participants test but tx = sort (
    unique (
      map (λ (s : Session). s.participant_id)
        (filter (λ (s : Session). is_open s.state && test s && not (s.participant_id == but))
          (values tx.sessions))))

-- One live session of a client answers to the name of the client; two are refused.
unfoldable pub pick_peer : (name : Text) → List Text → Result Text
pick_peer name [] = ok name
pick_peer name (peer ∷ []) = ok peer
pick_peer name (peer ∷ other ∷ peers) = err Exit.usage

-- One name of `resolveAddressees`.
unfoldable pub resolve_addressee : Tx → Session → (name : Text) → Result Text
unfolding known_participants open_participants pick_peer
resolve_addressee tx session name =
    if includes name (known_participants tx)
    then ok name
    else pick_peer name
        (open_participants (λ (s : Session). s.harness == name) session.participant_id tx)

unfoldable pub resolve_addressees : Tx → Session → List Text → Result (List Text)
unfolding resolve_addressee traverse
resolve_addressees tx session names = traverse (resolve_addressee tx session) names

-- `addressedRecipients`: the open room, or participants that exist, each once.
unfoldable pub addressed_recipients : Tx → List Text → Session → Result (List Text)
unfolding known_participants open_participants distinct every
addressed_recipients tx to session =
    if is_empty to
    then ok (open_participants (λ _. true) session.participant_id tx)
    else if not (distinct to)
    then err Exit.usage
    else if every (λ (p : Text). includes p (known_participants tx)) to
    then ok to
    else err Exit.invalid

-- `threadFor`
unfoldable pub thread_for : Tx → (message_id : Text) → (in_reply_to : Option Text) → Result Text
unfolding lookup
thread_for tx message_id none = ok message_id
thread_for tx message_id (some parent_id) = elim (lookup parent_id tx.messages) [
  | none ↦ err Exit.invalid
  | some parent ↦ ok parent.thread_id
]
