-- ===== src/Agents.antt =====
-- core/cat/agents: the main agent and the agents that it runs in turn.
pub mod Base
pub mod FormAgent
pub mod ProceduresAgent
pub mod MainAgent
pub mod Keeps
pub mod Routes
mod Tests
