-- ===== src/Tests.antt =====
-- Runs of the definitions on concrete inputs, and the theorems at such inputs.
mod Data
mod Messages
mod Stores
mod Telegram
mod Plugins
mod Texts
mod Health
