-- ===== src/Lib.antt =====
-- A bridge between a MeshCore channel and Telegram, which answers commands and forwards texts
-- (src/meshcore_control).
--
-- A received message runs through `BridgeService.process_message` (app.py, Bridge): the channel and
-- the room are checked, a duplicate is dropped (security/deduplication.py, Dedup), the sender is
-- limited (security/rate_limit.py, RateLimit), and the router (commands/router.py, Commands/Router)
-- parses the text (commands/parser.py, Commands/Parser and Commands/Shlex), resolves the command
-- (commands/registry.py, Commands/Registry), checks the user (auth/, Auth) and runs the handler. The
-- commands that a role sees (commands/registry.py, Commands/Listing) make the help (commands/help.py,
-- Commands/Help); pending confirmations stand in Commands/Confirmation (commands/confirmation.py). A
-- text that is no command goes to the Telegram side (telegram/service.py, Telegram/Forwarder and
-- Telegram/Render), which keeps its records in its own tables (telegram/store.py, Telegram/Store). The other way, updates
-- of Telegram are polled, classified and taken once; a command among them goes to the same router,
-- and a text to the channel (telegram/service.py, Telegram/Service, Telegram/Update and
-- Telegram/SafeText).
-- Each step leaves events of the audit (storage/audit_flow.py, Audit). Writes go through one
-- retrying transaction (storage/database.py, Storage). Faults and traffic are counted in the health
-- of the bridge (bridge_health.py, Health), which is published as events (homeassistant_health_events.py,
-- Health/Publisher); the handlers for the bridge itself (plugins/system.py, Plugins) show it and
-- override the forwarding. Messages are built by the constructors of models.py
-- (Models). Common, Text, Python and World hold what these share: lists, texts and their encoding,
-- exceptions, and the state with the monad in which the handlers are written. Tests holds runs at
-- concrete inputs.
--
-- The state (World/Exec) holds the health, the tables of the deduplication and of the Telegram side,
-- the limiters, the audit, and what the transport and the chat have accepted. A handler is a
-- function from the state to a result, which may be an exception, and the next state: what was done
-- before an exception stays done. What the program asks of its surroundings (the clock, faults of
-- SQLite, of the transport and of the chat) is answered by an environment, by the number of the
-- answer.
--
-- Texts are lists of code points; strings that are only compared are native strings. Encoding raises
-- on surrogates, so theorems on byte lengths ask for code points that can be encoded (`IsScalar`).
-- Times are whole ticks, limits and counts are natural numbers, and the window of the deduplication
-- is at least 1. The fuel of `shrink` is the length of the body, from which every round takes at
-- least one code point. The polling runs over a list of rounds that is told, each with whether the
-- service is stopped in it, so it needs no fuel. `str.lower`, the printing of an exception, SHA-256, HMAC, the numerals, the
-- size of encoded metadata and the handlers of commands are parameters.
--
-- Not modelled: logging, the health file, connections and migrations of SQLite, the configuration,
-- the transports and the clients of Home Assistant, MQTT and Telegram, and the plugins other than
-- the system commands for the bridge. The lock of the health is left out: its operations are whole
-- steps. An update identifier is one of the natural numbers that Telegram documents. A transaction
-- that a failed rollback leaves open refuses the next attempt of the same write, but is not carried
-- to the next write. The display names of rooms and senders, the metadata of rooms, and the schema
-- versions are left out, as nothing of the model reads them.
pub mod Common
pub mod Text
pub mod Python
pub mod Models
pub mod Auth
pub mod Plugins
pub mod RateLimit
pub mod Storage
pub mod Dedup
pub mod Health
pub mod World
pub mod Audit
pub mod Commands
pub mod Telegram
pub mod Bridge
pub mod Tests
