-- ===== src/Tests/Health.antt =====
-- The health at concrete inputs.
use meshcore_control_bridge.Common.{
  ℕ, sym, ◌∙◌, eq_iff, ◌≡◌, ◌≢◌, refl, String, Bool, true, false, none, some, List, [], ◌∷◌, ◌++◌,
  if◌then◌else◌, str_eq,
}
use meshcore_control_bridge.Python.{ok, raise, value_error}
use meshcore_control_bridge.Health.State.{BridgeHealthState, initial, effective_value}
use meshcore_control_bridge.Health.Overrides.{set_runtime_override, reset_runtime_overrides}
use meshcore_control_bridge.Health.Step.{
  Op, step, run, set_meshcore_connected, record_failure, set_audit_db_health,
}
use meshcore_control_bridge.Health.Invariant.{IsSane, run-IsSane}
use meshcore_control_bridge.Health.Notify.{status_at, step_notifies}
use meshcore_control_bridge.Health.Effective.{
  configured_value, set_all, set_runtime_override_lem, reset-set_all,
}

abbrev heard : BridgeHealthState
heard = record (initial "1.0" 0) {
  has_callback = true;
  meshcore_transport_state = "connected";
  ha_websocket_state = "connected";
}

abbrev ops : List (ℕ × Op)
ops = (1, set_meshcore_connected true) ∷ (2, record_failure "some text") ∷ []

run-IsSane_example : IsSane (run ops (initial "1.0" 0))
run-IsSane_example = run-IsSane "1.0" 0 ops

was_ok : status_at 5 heard ≡ "ok"
unfolding meshcore_control_bridge.Health.Snapshot.status
    meshcore_control_bridge.Health.State.snapshot
was_ok = refl

is_degraded : status_at 5 (step 5 (set_audit_db_health "degraded" none) heard) ≡ "degraded"
unfolding meshcore_control_bridge.Health.Snapshot.status
    meshcore_control_bridge.Health.State.snapshot step
    meshcore_control_bridge.Health.Ops.set_audit_db_health
    meshcore_control_bridge.Health.State.after_change
    meshcore_control_bridge.Health.State.record_failure_locked
is_degraded = refl

differ : str_eq "ok" "degraded" ≡ false
differ = refl

becomes_degraded :
    status_at 5 heard ≢ status_at 5 (step 5 (set_audit_db_health "degraded" none) heard)
becomes_degraded e = cc ((eq_iff "ok" "degraded").1 (sym was_ok ∙ e ∙ is_degraded), differ)

step_notifies_example :
    (step 5 (set_audit_db_health "degraded" none) heard).notified ≡ heard.notified ++ true ∷ []
step_notifies_example =
    step_notifies 5 (set_audit_db_health "degraded" none) heard refl becomes_degraded

set_runtime_override_lem_example :
    (effective_value "confirmation" heard ≡ none
      → set_runtime_override 5 "confirmation" true heard ≡ (raise value_error, heard))
    × ((before : Bool)
        → effective_value "confirmation" heard ≡ some before
        → ((set_runtime_override 5 "confirmation" true heard).0
            ≡ ok (record {
              target = "confirmation";
              previous_value = before;
              new_value = true;
              override_value = some true;
            }))
          × ((t : String)
              → effective_value t (set_runtime_override 5 "confirmation" true heard).1
                ≡ (if str_eq "confirmation" t then some true else effective_value t heard)))
set_runtime_override_lem_example = set_runtime_override_lem true heard 5 "confirmation"

reset-set_all_example :
    effective_value "confirmation"
      (reset_runtime_overrides 9 (set_all ((5, "confirmation", true) ∷ []) heard)).1
    ≡ configured_value "confirmation" heard
reset-set_all_example = reset-set_all 9 ((5, "confirmation", true) ∷ []) heard "confirmation"
