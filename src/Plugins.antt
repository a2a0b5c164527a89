-- ===== src/Plugins.antt =====
-- The handlers of the commands (plugins/).
pub mod Overrides
pub mod System
