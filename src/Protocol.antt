-- ===== src/Protocol.antt =====
-- The DNS wire format: src/core/protocol.
pub mod Header
pub mod Domain
pub mod Query
pub mod Resource
pub mod Request
pub mod Response
pub mod Tests
