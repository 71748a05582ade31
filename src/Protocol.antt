-- ===== src/Protocol.antt =====
-- packages/protocol: receipt states, message semantics, identifiers, fields and resources.
pub mod States
pub mod Fields
pub mod Messages
pub mod Resources
mod Examples
