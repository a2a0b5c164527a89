-- ===== src/Telegram.antt =====
-- The Telegram side of the bridge (telegram/).
pub mod Render
pub mod Store
pub mod Forwarder
pub mod Update
pub mod SafeText
pub mod Service
