-- ===== src/Gateway.antt =====
-- src/gateway.
pub mod Agents
pub mod Batches
pub mod Listing
pub mod Dispatch
pub mod Handlers
