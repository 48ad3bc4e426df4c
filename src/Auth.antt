-- ===== src/Auth.antt =====
-- core/cat/auth and core/cat/factory/custom_auth_handler.py: who may do what.
pub mod Permissions
pub mod Handler
pub mod Connection
mod Tests
