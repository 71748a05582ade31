-- ===== src/Protocol/Messages.antt =====
-- packages/protocol/src/conversations.mjs and src/decision-changes.mjs: the record of a message,
-- and which combinations of its fields make sense.
pub mod Semantics
pub mod Records
use agents_can_communicate.Base.{
  ℕ, ◌≤◌, ◌≡◌, ◌↔◌, ◌⊎◌, ◌≢◌, refl, Bool, true, false, not, ◌&&◌, ◌||◌, Option, none, some, List,
  [], ◌∷◌, arith, Text, codes, ◌==◌, eq_iff, if◌then◌else◌, ltb, leb, eqb, is_some, is_none,
  is_empty, length, distinct, every, Result, ok, err, Exit, require, ◌>>=◌, ◌>>◌,
}

pub data MessageKind : Type 0 where
  note question request answer decision handoff : MessageKind

pub data Obligation : Type 0 where
  nothing acknowledge reply : Obligation

pub data ChangeAction : Type 0 where
  replace withdraw : ChangeAction

pub record DecisionChange : Type 0 where
  pub action : ChangeAction
  pub message_ids : List Text

pub data HandoffStatus : Type 0 where
  complete partial blocked : HandoffStatus

pub data ArtifactKind : Type 0 where
  file git url report image bytes : ArtifactKind

pub record Artifact : Type 0 where
  pub kind : ArtifactKind
  pub uri : Text
  pub description : Text
  pub sha256 : Option Text

pub record Handoff : Type 0 where
  pub status : HandoffStatus
  pub completed : List Text
  pub remaining : List Text
  pub blockers : List Text
  pub verification : List Artifact

-- The `message` record of src/schema.mjs; a time is in milliseconds.
pub record Message : Type 0 where
  pub message_id : Text
  pub thread_id : Text
  pub client_message_id : Text
  pub workspace_id : Text
  pub from_participant_id : Text
  pub from_session_id : Text
  pub to_participant_ids : List Text
  pub kind : MessageKind
  pub obligation : Obligation
  pub subject : Text
  pub body : Text
  pub in_reply_to : Option Text
  pub artifacts : List Artifact
  pub handoff_payload : Option Handoff
  pub decision_change : Option DecisionChange
  pub sent_at : ℕ

unfoldable pub is_decision : MessageKind → Bool
is_decision MessageKind.decision = true
is_decision _ = false

unfoldable pub is_answer : MessageKind → Bool
is_answer MessageKind.answer = true
is_answer _ = false

unfoldable pub is_handoff : MessageKind → Bool
is_handoff MessageKind.handoff = true
is_handoff _ = false

unfoldable pub asks_nothing : Obligation → Bool
asks_nothing Obligation.nothing = true
asks_nothing _ = false

unfoldable pub asks_acknowledgement : Obligation → Bool
asks_acknowledgement Obligation.acknowledge = true
asks_acknowledgement _ = false

unfoldable pub asks_reply : Obligation → Bool
asks_reply Obligation.reply = true
asks_reply _ = false

-- `["note", "decision", "handoff"].includes(kind)`
room_kind : MessageKind → Bool
room_kind MessageKind.note = true
room_kind MessageKind.decision = true
room_kind MessageKind.handoff = true
room_kind _ = false

-- `VALID_OBLIGATIONS[kind].includes(obligation)`
valid_obligation : MessageKind → Obligation → Bool
unfolding asks_nothing asks_reply
valid_obligation MessageKind.note o = asks_nothing o
valid_obligation MessageKind.question o = asks_reply o
valid_obligation MessageKind.request o = asks_reply o
valid_obligation MessageKind.answer o = asks_nothing o
valid_obligation MessageKind.decision o = not (asks_reply o)
valid_obligation MessageKind.handoff o = not (asks_reply o)

unfoldable pub assert_message_semantics : Message → Result Message
unfolding is_decision is_answer is_handoff asks_nothing asks_acknowledgement room_kind
    valid_obligation
assert_message_semantics m = do
  require (is_none m.decision_change || is_decision m.kind) Exit.invalid
  let room = is_empty m.to_participant_ids
  require (not room || room_kind m.kind) Exit.invalid
  require (not room || asks_nothing m.obligation) Exit.invalid
  require (valid_obligation m.kind m.obligation) Exit.invalid
  let root = m.thread_id == m.message_id
  require (not (is_answer m.kind && is_none m.in_reply_to)) Exit.invalid
  require (not (is_answer m.kind && root)) Exit.invalid
  require (not (is_none m.in_reply_to && not root)) Exit.invalid
  require (not (is_some m.in_reply_to && root)) Exit.invalid
  require (not (is_handoff m.kind && is_none m.handoff_payload)) Exit.invalid
  require (not (not room && is_handoff m.kind && not (asks_acknowledgement m.obligation)))
      Exit.invalid
  require (not (not (is_handoff m.kind) && is_some m.handoff_payload)) Exit.invalid
  ok m

-- What each kind asks of its readers, written down by kind rather than by guard.
abbrev pub Asks : (room : Bool) → MessageKind → Obligation → Type 0
Asks room MessageKind.note o = o ≡ Obligation.nothing
Asks room MessageKind.question o = (room ≡ false) × (o ≡ Obligation.reply)
Asks room MessageKind.request o = (room ≡ false) × (o ≡ Obligation.reply)
Asks room MessageKind.answer o = (room ≡ false) × (o ≡ Obligation.nothing)
Asks true MessageKind.decision o = o ≡ Obligation.nothing
Asks false MessageKind.decision o = o ≢ Obligation.reply
Asks true MessageKind.handoff o = o ≡ Obligation.nothing
Asks false MessageKind.handoff o = o ≡ Obligation.acknowledge

-- A message is in order: it asks what its kind may ask, it begins a thread exactly where it replies
-- to nothing, an answer replies to something, a handoff alone carries a payload, and only a
-- decision changes decisions.
pub record IsSemantic (m : Message) : Type 0 where
  pub asks : Asks (is_empty m.to_participant_ids) m.kind m.obligation
  pub threading : (m.in_reply_to ≡ none) ↔ (m.thread_id ≡ m.message_id)
  pub answering : m.kind ≡ MessageKind.answer → m.in_reply_to ≢ none
  pub payload : (m.kind ≡ MessageKind.handoff) ↔ (m.handoff_payload ≢ none)
  pub changing : m.decision_change ≢ none → m.kind ≡ MessageKind.decision

-- src/decision-changes.mjs: 1 to 16 different ids (each a portable id, see Protocol/Fields).
unfoldable pub assert_decision_change : (Text → Bool) → DecisionChange → Result DecisionChange
assert_decision_change portable c = do
  require (every portable c.message_ids) Exit.invalid
  require (leb 1 (length c.message_ids) && leb (length c.message_ids) 16 && distinct c.message_ids)
      Exit.invalid
  ok c
