-- ===== src/MadHatter.antt =====
-- core/cat/mad_hatter: plugins, the hooks that they bring, and the manager of both.
pub mod Hook
pub mod Pipe
pub mod Plugin
pub mod Manager
pub mod Sync
pub mod Lifecycle
pub mod Requests
mod Tests
