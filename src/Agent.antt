-- ===== src/Agent.antt =====
-- src/agent/agent_handler.cpp.
pub mod Utf8
pub mod Handlers
pub mod Startup
