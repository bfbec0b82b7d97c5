-- ===== src/Config.antt =====
-- src/config: the configuration, from the environment.
pub mod Environment
pub mod Load
pub mod Ensures
pub mod Numbers
pub mod Valid
pub mod Tests
