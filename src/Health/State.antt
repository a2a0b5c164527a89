-- ===== src/Health/State.antt =====
-- The fields of `BridgeHealthState`, its effective values, `snapshot` and `_after_change`.
use meshcore_control_bridge.Common.{
  ℕ, ◌-◌, String, Bool, false, Option, none, some, List, [], ◌∷◌, ◌++◌, if◌then◌else◌, str_eq,
}
use meshcore_control_bridge.Health.Reason.{safe_reason}
use meshcore_control_bridge.Health.Snapshot.{BridgeHealthSnapshot, critical_transition_from}

-- `has_callback` says that a change callback is set, and `notified` holds the flags that it was
-- called with, oldest first.
pub record BridgeHealthState : Type 0 where
  pub version : String
  pub started_at : ℕ
  pub ha_websocket_state : String
  pub meshcore_transport_state : String
  pub telegram_polling_state : String
  pub telegram_enabled : Bool
  pub configured_forward_telegram_to_meshcore : Bool
  pub configured_forward_meshcore_to_telegram : Bool
  pub configured_forward_confirmation_enabled : Bool
  pub override_telegram_to_meshcore : Option Bool
  pub override_meshcore_to_telegram : Option Bool
  pub override_confirmation : Option Bool
  pub last_tg_to_mc : Option ℕ
  pub last_mc_to_tg : Option ℕ
  pub last_failure : Option ℕ
  pub last_failure_reason : String
  pub tg_to_mc_success : ℕ
  pub tg_to_mc_failed : ℕ
  pub mc_to_tg_success : ℕ
  pub mc_to_tg_failed : ℕ
  pub commands_processed : ℕ
  pub audit_db_health : String
  pub telegram_db_health : String
  pub has_callback : Bool
  pub notified : List Bool

abbrev pub initial : String → ℕ → BridgeHealthState
initial version started_at = record {
  version = version;
  started_at = started_at;
  ha_websocket_state = "disconnected";
  meshcore_transport_state = "disconnected";
  telegram_polling_state = "disabled";
  telegram_enabled = false;
  configured_forward_telegram_to_meshcore = false;
  configured_forward_meshcore_to_telegram = false;
  configured_forward_confirmation_enabled = false;
  override_telegram_to_meshcore = none;
  override_meshcore_to_telegram = none;
  override_confirmation = none;
  last_tg_to_mc = none;
  last_mc_to_tg = none;
  last_failure = none;
  last_failure_reason = "none";
  tg_to_mc_success = 0;
  tg_to_mc_failed = 0;
  mc_to_tg_success = 0;
  mc_to_tg_failed = 0;
  commands_processed = 0;
  audit_db_health = "ok";
  telegram_db_health = "ok";
  has_callback = false;
  notified = [];
}

-- `configured if override is None else override`
abbrev pub override_or : Option Bool → Bool → Bool
override_or none configured = configured
override_or (some value) configured = value

-- `_effective_value_locked`; `none` is the `ValueError` for any other target
unfoldable pub effective_value : String → BridgeHealthState → Option Bool
effective_value target h =
    if str_eq target "telegram_to_meshcore"
    then some
        (override_or h.override_telegram_to_meshcore h.configured_forward_telegram_to_meshcore)
    else if str_eq target "meshcore_to_telegram"
    then some
        (override_or h.override_meshcore_to_telegram h.configured_forward_meshcore_to_telegram)
    else if str_eq target "confirmation"
    then some (override_or h.override_confirmation h.configured_forward_confirmation_enabled)
    else none

abbrev pub effective_telegram_to_meshcore : BridgeHealthState → Bool
effective_telegram_to_meshcore h =
    override_or h.override_telegram_to_meshcore h.configured_forward_telegram_to_meshcore

abbrev pub effective_meshcore_to_telegram : BridgeHealthState → Bool
effective_meshcore_to_telegram h =
    override_or h.override_meshcore_to_telegram h.configured_forward_meshcore_to_telegram

abbrev pub effective_forward_confirmation : BridgeHealthState → Bool
effective_forward_confirmation h =
    override_or h.override_confirmation h.configured_forward_confirmation_enabled

unfoldable pub snapshot : ℕ → BridgeHealthState → BridgeHealthSnapshot
snapshot now h = record {
  version = h.version;
  started_at = h.started_at;
  uptime_seconds = now - h.started_at;
  ha_websocket_state = h.ha_websocket_state;
  meshcore_transport_state = h.meshcore_transport_state;
  telegram_polling_state = h.telegram_polling_state;
  telegram_enabled = h.telegram_enabled;
  configured_forward_telegram_to_meshcore = h.configured_forward_telegram_to_meshcore;
  configured_forward_meshcore_to_telegram = h.configured_forward_meshcore_to_telegram;
  configured_forward_confirmation_enabled = h.configured_forward_confirmation_enabled;
  forward_telegram_to_meshcore = effective_telegram_to_meshcore h;
  forward_meshcore_to_telegram = effective_meshcore_to_telegram h;
  forward_confirmation_enabled = effective_forward_confirmation h;
  override_telegram_to_meshcore = h.override_telegram_to_meshcore;
  override_meshcore_to_telegram = h.override_meshcore_to_telegram;
  override_confirmation = h.override_confirmation;
  last_tg_to_mc = h.last_tg_to_mc;
  last_mc_to_tg = h.last_mc_to_tg;
  last_failure = h.last_failure;
  last_failure_reason = h.last_failure_reason;
  tg_to_mc_success = h.tg_to_mc_success;
  tg_to_mc_failed = h.tg_to_mc_failed;
  mc_to_tg_success = h.mc_to_tg_success;
  mc_to_tg_failed = h.mc_to_tg_failed;
  commands_processed = h.commands_processed;
  audit_db_health = h.audit_db_health;
  telegram_db_health = h.telegram_db_health;
}

-- `_after_change`: the callback, if one is set, is told whether the change is critical.
unfoldable pub after_change : ℕ → BridgeHealthState → BridgeHealthState → BridgeHealthState
after_change now previous h = record h {
  notified =
      if h.has_callback
      then h.notified
        ++ critical_transition_from (snapshot now h) (some (snapshot now previous)) ∷ []
      else h.notified;
}

-- `_record_failure_locked`
unfoldable pub record_failure_locked : ℕ → String → BridgeHealthState → BridgeHealthState
record_failure_locked now reason h = record h {
  last_failure = some now;
  last_failure_reason = safe_reason reason;
}
