-- ===== src/Orchestrator.antt =====
-- The orchestrator: the saga model, its tables, the service, the router and the HTTP handlers.
pub mod Model
pub mod Repo
pub mod Service
pub mod Handler
