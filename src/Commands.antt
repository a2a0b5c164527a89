-- ===== src/Commands.antt =====
-- The command engine (commands/): parsing, the registry and the router.
pub mod Parser
pub mod Shlex
pub mod ParserLaws
pub mod Registry
pub mod RegistryLaws
pub mod Router
pub mod Listing
pub mod ListingLaws
pub mod Help
pub mod Confirmation
