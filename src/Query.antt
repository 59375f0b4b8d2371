-- ===== src/Query.antt =====
-- internal/query and internal/pskquery: how a query is read, and who answers it.
pub mod Parser
pub mod Capabilities
pub mod Eligible
pub mod Steps
pub mod Router
pub mod Api
pub mod Merger
pub mod Examples
