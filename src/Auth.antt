-- ===== src/Auth.antt =====
-- src/auth: tokens, the state of the authorization, and the session file.
pub mod TokenStore
pub mod AuthState
pub mod StateManager
pub mod Startup
pub mod SessionIo
