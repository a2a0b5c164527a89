-- ===== src/Health/Overrides.antt =====
-- The runtime overrides of `BridgeHealthState`.
use meshcore_control_bridge.Common.{
  ℕ, String, Bool, Option, none, some, List, [], ◌∷◌, if◌then◌else◌, str_eq,
}
use meshcore_control_bridge.Python.{Result, ok, raise, value_error}
use meshcore_control_bridge.Health.State.{
  BridgeHealthState, effective_value, effective_telegram_to_meshcore,
  effective_meshcore_to_telegram, effective_forward_confirmation, after_change,
}

pub record RuntimeOverrideChange : Type 0 where
  pub target : String
  pub previous_value : Bool
  pub new_value : Bool
  pub override_value : Option Bool

-- The assignment in the branch of the target.
unfoldable pub assign_override : String → Bool → BridgeHealthState → BridgeHealthState
assign_override target value h =
    if str_eq target "telegram_to_meshcore"
    then record h { override_telegram_to_meshcore = some value }
    else if str_eq target "meshcore_to_telegram"
    then record h { override_meshcore_to_telegram = some value }
    else record h { override_confirmation = some value }

-- The rest of `set_runtime_override`, behind the effective values before and after the assignment;
-- `none` is the `ValueError` of an unknown target, which comes before anything is written.
abbrev pub finish_override :
    ℕ
    → String
    → Bool
    → BridgeHealthState
    → Option Bool
    → Option Bool
    → Result RuntimeOverrideChange × BridgeHealthState
finish_override now target value h none after = (raise value_error, h)
finish_override now target value h (some before) none =
    (raise value_error, assign_override target value h)
finish_override now target value h (some before) (some after) = (
  ok (record {
    target = target;
    previous_value = before;
    new_value = after;
    override_value = some value;
  }),
  after_change now h (assign_override target value h),
)

unfoldable pub set_runtime_override :
    ℕ → String → Bool → BridgeHealthState → Result RuntimeOverrideChange × BridgeHealthState
set_runtime_override now target value h =
    finish_override now target value h (effective_value target h)
      (effective_value target (assign_override target value h))

unfoldable pub reset_runtime_overrides :
    ℕ → BridgeHealthState → List RuntimeOverrideChange × BridgeHealthState
reset_runtime_overrides now h = (
  record {
    target = "telegram_to_meshcore";
    previous_value = effective_telegram_to_meshcore h;
    new_value = h.configured_forward_telegram_to_meshcore;
    override_value = none;
  }
      ∷ record {
        target = "meshcore_to_telegram";
        previous_value = effective_meshcore_to_telegram h;
        new_value = h.configured_forward_meshcore_to_telegram;
        override_value = none;
      }
      ∷ record {
        target = "confirmation";
        previous_value = effective_forward_confirmation h;
        new_value = h.configured_forward_confirmation_enabled;
        override_value = none;
      }
      ∷ [],
  after_change now h (record h {
    override_telegram_to_meshcore = none;
    override_meshcore_to_telegram = none;
    override_confirmation = none;
  }),
)
