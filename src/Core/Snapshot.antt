-- ===== src/Core/Snapshot.antt =====
-- The state of a workspace outside a transaction (`store.snapshot`, `store.stateEnvelopes`), and the
-- log of events as it is numbered.
use agents_can_communicate.Base.{ℕ}
use agents_can_communicate.Base.Table.{Table}
use agents_can_communicate.Protocol.Messages.{Message}
use agents_can_communicate.Core.Records.{Participant, Session, Claim, Receipt, Event}
pub use agents_can_communicate.Core.Records.{Intent, IntentMode, IntentState}

-- The records of a workspace by kind and id.
pub record Snapshot : Type 0 where
  pub participants : Table Participant
  pub sessions : Table Session
  pub intents : Table Intent
  pub claims : Table Claim
  pub messages : Table Message
  pub receipts : Table Receipt

-- An event of the log, with its sequence number.
pub record LogEntry : Type 0 where
  pub sequence : ℕ
  pub event : Event
