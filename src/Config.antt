-- ===== src/Config.antt =====
-- config: the configuration manager.
pub mod Manager
pub mod Getters
