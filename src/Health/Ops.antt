-- ===== src/Health/Ops.antt =====
-- The operations of `BridgeHealthState` that record connections, traffic and failures.
use meshcore_control_bridge.Common.{
  ℕ, ◌+◌, String, Bool, ◌||◌, Option, none, some, if◌then◌else◌, str_eq,
}
use meshcore_control_bridge.Health.State.{BridgeHealthState, after_change, record_failure_locked}

unfoldable pub set_change_callback : Bool → BridgeHealthState → BridgeHealthState
set_change_callback given h = record h { has_callback = given }

unfoldable pub configure : ℕ → Bool → Bool → Bool → Bool → BridgeHealthState → BridgeHealthState
configure now enabled tg_to_mc mc_to_tg confirmation h = after_change now h (record h {
  telegram_enabled = enabled;
  telegram_polling_state = if enabled then "disconnected" else "disabled";
  configured_forward_telegram_to_meshcore = tg_to_mc;
  configured_forward_meshcore_to_telegram = mc_to_tg;
  configured_forward_confirmation_enabled = confirmation;
  override_telegram_to_meshcore = none;
  override_meshcore_to_telegram = none;
  override_confirmation = none;
})

unfoldable pub set_meshcore_connected : ℕ → Bool → BridgeHealthState → BridgeHealthState
set_meshcore_connected now connected h =
    let state : String = if connected then "connected" else "disconnected" in
    after_change now h (record h { meshcore_transport_state = state; ha_websocket_state = state })

unfoldable pub set_telegram_polling : ℕ → String → BridgeHealthState → BridgeHealthState
set_telegram_polling now state h =
    let known =
      str_eq state "disabled"
      || str_eq state "connected"
      || str_eq state "degraded"
      || str_eq state "disconnected" in
    after_change now h (record h { telegram_polling_state = if known then state else "degraded" })

unfoldable pub record_command_processed : ℕ → BridgeHealthState → BridgeHealthState
record_command_processed now h =
    after_change now h (record h { commands_processed = h.commands_processed + 1 })

unfoldable pub record_tg_to_mc : ℕ → Bool → String → BridgeHealthState → BridgeHealthState
record_tg_to_mc now success reason h = after_change now h (
    if success
    then record h { tg_to_mc_success = h.tg_to_mc_success + 1; last_tg_to_mc = some now }
    else record_failure_locked now reason (record h { tg_to_mc_failed = h.tg_to_mc_failed + 1 }))

unfoldable pub record_mc_to_tg : ℕ → Bool → String → BridgeHealthState → BridgeHealthState
record_mc_to_tg now success reason h = after_change now h (
    if success
    then record h { mc_to_tg_success = h.mc_to_tg_success + 1; last_mc_to_tg = some now }
    else record_failure_locked now reason (record h { mc_to_tg_failed = h.mc_to_tg_failed + 1 }))

abbrev pub known_db_state : String → String
known_db_state state = if str_eq state "ok" || str_eq state "degraded" then state else "degraded"

-- The end of `_set_db_health`: a degraded database is a failure, for the given reason or for
-- `storage_error` where there is none or an empty one.
abbrev pub db_failure : ℕ → String → Option String → BridgeHealthState → BridgeHealthState
db_failure now state reason h =
    if str_eq state "degraded"
    then record_failure_locked now
        (elim reason [
          | none ↦ "storage_error"
          | some r ↦ if str_eq r "" then "storage_error" else r
        ])
        h
    else h

unfoldable pub set_audit_db_health :
    ℕ → String → Option String → BridgeHealthState → BridgeHealthState
set_audit_db_health now state reason h =
    let known = known_db_state state in
    after_change now h (db_failure now known reason (record h { audit_db_health = known }))

unfoldable pub set_telegram_db_health :
    ℕ → String → Option String → BridgeHealthState → BridgeHealthState
set_telegram_db_health now state reason h =
    let known = known_db_state state in
    after_change now h (db_failure now known reason (record h { telegram_db_health = known }))

unfoldable pub record_failure : ℕ → String → BridgeHealthState → BridgeHealthState
record_failure now reason h = after_change now h (record_failure_locked now reason h)
