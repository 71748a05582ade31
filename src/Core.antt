-- ===== src/Core.antt =====
-- packages/core: claims, receipts, sessions, conversations and what is derived from them.
pub mod Records
pub mod Snapshot
pub mod Transaction
pub mod Overlaps
pub mod Claims
pub mod Receipts
pub mod Conversations
pub mod Inbox
pub mod Sessions
pub mod Decisions
pub mod Prune
pub mod Bindings
pub mod Pages
pub mod Opening
pub mod NextTurn
pub mod FinishRetry
pub mod Intents
