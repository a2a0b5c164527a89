-- ===== src/Health/Snapshot.antt =====
-- `BridgeHealthSnapshot` of bridge_health.py.
use meshcore_control_bridge.Common.{
  ℕ, String, Bool, true, false, not, ◌&&◌, ◌||◌, Option, none, some, if◌then◌else◌, str_eq, ◌==◌,
}

pub record BridgeHealthSnapshot : Type 0 where
  pub version : String
  pub started_at : ℕ
  pub uptime_seconds : ℕ
  pub ha_websocket_state : String
  pub meshcore_transport_state : String
  pub telegram_polling_state : String
  pub telegram_enabled : Bool
  pub configured_forward_telegram_to_meshcore : Bool
  pub configured_forward_meshcore_to_telegram : Bool
  pub configured_forward_confirmation_enabled : Bool
  pub forward_telegram_to_meshcore : Bool
  pub forward_meshcore_to_telegram : Bool
  pub forward_confirmation_enabled : Bool
  pub override_telegram_to_meshcore : Option Bool
  pub override_meshcore_to_telegram : Option Bool
  pub override_confirmation : Option Bool
  pub last_tg_to_mc : Option ℕ
  pub last_mc_to_tg : Option ℕ
  pub last_failure : Option ℕ
  pub last_failure_reason : String
  pub tg_to_mc_success : ℕ
  pub tg_to_mc_failed : ℕ
  pub mc_to_tg_success : ℕ
  pub mc_to_tg_failed : ℕ
  pub commands_processed : ℕ
  pub audit_db_health : String
  pub telegram_db_health : String

-- the property `status`
unfoldable pub status : BridgeHealthSnapshot → String
status s =
    if str_eq s.meshcore_transport_state "disconnected"
      || str_eq s.telegram_polling_state "degraded"
      || str_eq s.audit_db_health "degraded"
      || str_eq s.telegram_db_health "degraded"
    then "degraded"
    else "ok"

-- `a != b` on optional times
unfoldable pub same_time : Option ℕ → Option ℕ → Bool
same_time none none = true
same_time (some a) (some b) = a == b
same_time _ _ = false

unfoldable pub critical_transition_from : BridgeHealthSnapshot → Option BridgeHealthSnapshot → Bool
critical_transition_from s none = true
critical_transition_from s (some previous) =
    if not (str_eq (status s) (status previous))
    then true
    else if str_eq s.meshcore_transport_state "disconnected"
        && not (str_eq previous.meshcore_transport_state "disconnected")
    then true
    else if (str_eq s.telegram_polling_state "degraded"
          || str_eq s.telegram_polling_state "disconnected")
        && not (str_eq s.telegram_polling_state previous.telegram_polling_state)
    then true
    else not (same_time s.last_failure previous.last_failure)

-- `_telegram_state`
unfoldable pub telegram_state : BridgeHealthSnapshot → String
telegram_state s =
    if not s.telegram_enabled
    then "disabled"
    else if str_eq s.telegram_polling_state "connected"
    then "connected"
    else if str_eq s.telegram_polling_state "disabled"
        || str_eq s.telegram_polling_state "disconnected"
    then "enabled"
    else "degraded"
