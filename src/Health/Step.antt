-- ===== src/Health/Step.antt =====
-- Every operation of `BridgeHealthState` that changes it, as one step.
use meshcore_control_bridge.Common.{ℕ, String, Bool, Option, List, [], ◌∷◌}
use meshcore_control_bridge.Health.State.{BridgeHealthState}
use meshcore_control_bridge.Health.Ops
use meshcore_control_bridge.Health.Overrides

pub data Op : Type 0 where
  set_change_callback : Bool → Op
  configure : Bool → Bool → Bool → Bool → Op
  set_runtime_override : String → Bool → Op
  reset_runtime_overrides : Op
  set_meshcore_connected : Bool → Op
  set_telegram_polling : String → Op
  record_command_processed : Op
  record_tg_to_mc : Bool → String → Op
  record_mc_to_tg : Bool → String → Op
  set_audit_db_health : String → Option String → Op
  set_telegram_db_health : String → Option String → Op
  record_failure : String → Op

unfoldable pub step : ℕ → Op → BridgeHealthState → BridgeHealthState
step now (set_change_callback given) h = Ops.set_change_callback given h
step now (configure enabled tg mc confirmation) h = Ops.configure now enabled tg mc confirmation h
step now (set_runtime_override target value) h =
    (Overrides.set_runtime_override now target value h).1
step now reset_runtime_overrides h = (Overrides.reset_runtime_overrides now h).1
step now (set_meshcore_connected connected) h = Ops.set_meshcore_connected now connected h
step now (set_telegram_polling state) h = Ops.set_telegram_polling now state h
step now record_command_processed h = Ops.record_command_processed now h
step now (record_tg_to_mc success reason) h = Ops.record_tg_to_mc now success reason h
step now (record_mc_to_tg success reason) h = Ops.record_mc_to_tg now success reason h
step now (set_audit_db_health state reason) h = Ops.set_audit_db_health now state reason h
step now (set_telegram_db_health state reason) h = Ops.set_telegram_db_health now state reason h
step now (record_failure reason) h = Ops.record_failure now reason h

-- A run: each step at its own time.
unfoldable pub run : List (ℕ × Op) → BridgeHealthState → BridgeHealthState
run [] h = h
run ((now, op) ∷ rest) h = run rest (step now op h)
