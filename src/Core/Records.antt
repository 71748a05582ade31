-- ===== src/Core/Records.antt =====
-- The durable records of packages/protocol/src/schema.mjs that core keeps, the events that it
-- appends, and the state of one transaction. A time is in milliseconds.
use agents_can_communicate.Base.{ℕ, Bool, true, false, Option, List, Text}
use agents_can_communicate.Base.Table.{Table}
use agents_can_communicate.Protocol.States.{ReceiptState}
use agents_can_communicate.Protocol.Messages.{Message, Obligation}

pub data SessionState : Type 0 where
  opened closed : SessionState

pub data Enforcement : Type 0 where
  guarded advisory : Enforcement

pub data Lifecycle : Type 0 where
  managed manual : Lifecycle

-- The two extensions that core writes into a session record are fields here.
pub record Session : Type 0 where
  pub session_id : Text
  pub participant_id : Text
  pub workspace_id : Text
  pub generation : Text
  pub harness : Text
  pub state : SessionState
  pub parent_session_id : Option Text
  pub checkout_root : Option Text
  pub branch : Option Text
  pub pid : Option ℕ
  pub enforcement : Enforcement
  pub lifecycle : Lifecycle
  pub heartbeat_cadence_ms : ℕ
  pub started_at : ℕ
  pub heartbeat_at : ℕ
  pub noticed_left_messages : Option (List Text)
  pub end_reason : Option Text

pub data ParticipantKind : Type 0 where
  agent human : ParticipantKind

pub record Participant : Type 0 where
  pub participant_id : Text
  pub workspace_id : Text
  pub display_name : Text
  pub kind : ParticipantKind
  pub created_at : ℕ

pub data ClaimMode : Type 0 where
  shared exclusive : ClaimMode

pub record Claim : Type 0 where
  pub claim_id : Text
  pub workspace_id : Text
  pub owner_session_id : Text
  pub resource : Text
  pub mode : ClaimMode
  pub enforcement : Enforcement
  pub reason : Text
  pub acquired_at : ℕ
  pub expires_at : ℕ
  pub generation : Text

-- `extensions.offer` of a receipt.
pub record Offer : Type 0 where
  pub transport : Text
  pub at : ℕ
  pub repeated_at : Option ℕ

-- The two extensions that core writes into a receipt record are fields here.
pub record Receipt : Type 0 where
  pub message_id : Text
  pub workspace_id : Text
  pub recipient_participant_id : Text
  pub state : ReceiptState
  pub updated_at : ℕ
  pub offer : Option Offer
  pub obligation : Option Obligation

pub data IntentMode : Type 0 where
  observe explore edit review coordinate wait : IntentMode

pub data IntentState : Type 0 where
  active blocked waiting done : IntentState

pub record Intent : Type 0 where
  pub session_id : Text
  pub workspace_id : Text
  pub summary : Text
  pub mode : IntentMode
  pub resource_hints : List Text
  pub state : IntentState
  pub updated_at : ℕ

-- The type and the payload of an event.
pub data Happening : Type 0 where
  claim_acquired : (claim_id resource : Text) → ClaimMode → Happening
  claim_renewed : (claim_id : Text) → Option (Text × ClaimMode) → Happening
  claim_released claim_force_released :
      (claim_id : Text)
      → (authority : Option Text) → (reason : Option Text) → (replaced_generation : Text)
      → Happening
  intent_published : IntentMode → IntentState → Happening
  intent_cleared : Happening
  session_opened : (replaced : Option Text) → Happening
  session_closed : Happening
  session_finished :
      (message_id session_generation : Text) → (released_claim_ids : List Text) → Happening
  message_recorded : (message_id thread_id : Text) → (recipients : List Text) → Happening
  message_moved : ReceiptState → (message_id participant_id : Text) → Happening
  offer_succeeded :
      (message_id participant_id session_id generation transport : Text)
      → (repeat : Bool) → Happening
  offer_failed :
      (message_id participant_id session_id generation transport error_code : Text) → Happening

pub record Event : Type 0 where
  pub event_id : Text
  pub workspace_id : Text
  pub actor_session_id : Text
  pub occurred_at : ℕ
  pub happening : Happening

pub record Tx : Type 0 where
  pub participants : Table Participant
  pub sessions : Table Session
  pub claims : Table Claim
  pub messages : Table Message
  pub receipts : Table Receipt
  pub intents : Table Intent
  pub events : List Event
  pub next_id : ℕ

unfoldable pub is_open : SessionState → Bool
is_open SessionState.opened = true
is_open SessionState.closed = false

unfoldable pub is_exclusive : ClaimMode → Bool
is_exclusive ClaimMode.shared = false
is_exclusive ClaimMode.exclusive = true
