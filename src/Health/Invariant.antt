-- ===== src/Health/Invariant.antt =====
-- Whatever texts the callers pass, the states and reasons that are kept are listed ones.
use meshcore_control_bridge.Common.{
  ℕ, ◌≡◌, inl, inr, refl, String, Bool, true, false, Option, none, some, List, [], ◌∷◌, arith,
  Bool-cases, ◌||◌, str_eq, eq_iff, if◌then◌else◌, codes, map,
}
use meshcore_control_bridge.Text.Utf8.{Text}
use meshcore_control_bridge.Text.Space.{strip}
use meshcore_control_bridge.Dedup.{text_eq}
use meshcore_control_bridge.Health.Reason.{
  safe_failure_reasons, find_reason, safe_reason, OneOf, reason_or_storage_error, normalize_char,
}
use meshcore_control_bridge.Health.State.{
  BridgeHealthState, initial, after_change, record_failure_locked,
}
use meshcore_control_bridge.Health.Ops
use meshcore_control_bridge.Health.Ops.{known_db_state, db_failure}
use meshcore_control_bridge.Health.Overrides
use meshcore_control_bridge.Health.Overrides.{assign_override, finish_override}
use meshcore_control_bridge.Health.Step.{
  Op, set_change_callback, configure, set_runtime_override, reset_runtime_overrides,
  set_meshcore_connected, set_telegram_polling, record_command_processed, record_tg_to_mc,
  record_mc_to_tg, set_audit_db_health, set_telegram_db_health, record_failure, step, run,
}

pub record IsSane (h : BridgeHealthState) : Type 0 where
  pub websocket : OneOf ("connected" ∷ "disconnected" ∷ []) h.ha_websocket_state
  pub meshcore : OneOf ("connected" ∷ "disconnected" ∷ []) h.meshcore_transport_state
  pub polling :
      OneOf ("disabled" ∷ "connected" ∷ "degraded" ∷ "disconnected" ∷ []) h.telegram_polling_state
  pub audit_db : OneOf ("ok" ∷ "degraded" ∷ []) h.audit_db_health
  pub telegram_db : OneOf ("ok" ∷ "degraded" ∷ []) h.telegram_db_health
  pub reason : OneOf safe_failure_reasons h.last_failure_reason

find_reason-OneOf :
    (text : Text) (rs : List String) (r : String) → find_reason text rs ≡ some r → OneOf rs r
unfolding find_reason
find_reason-OneOf text [] r h = cc
find_reason-OneOf text (q ∷ rs) r h = elim (Bool-cases (text_eq (codes q) text)) [
  | inl same ↦ inl (ground (arith))
  | inr other ↦ inr (find_reason-OneOf text rs r (ground arith))
]

safe_reason-OneOf : (reason : String) → OneOf safe_failure_reasons (safe_reason reason)
unfolding safe_reason
safe_reason-OneOf reason =
    kept (find_reason (map normalize_char (strip (codes reason))) safe_failure_reasons)
      (find_reason-OneOf (map normalize_char (strip (codes reason))) safe_failure_reasons)
  where
    kept :
        (o : Option String)
        → ((r : String) → o ≡ some r → OneOf safe_failure_reasons r)
        → OneOf safe_failure_reasons (reason_or_storage_error o)
    kept none h = unfold safe_failure_reasons in inr (inr (inl refl))
    kept (some r) h = h r refl

-- a failure is recorded with a listed reason
failed-IsSane :
    (now : ℕ) (reason : String) (h : BridgeHealthState)
    → IsSane h
    → IsSane (record_failure_locked now reason h)
unfolding record_failure_locked
failed-IsSane now reason h s = record {
  websocket = s.websocket;
  meshcore = s.meshcore;
  polling = s.polling;
  audit_db = s.audit_db;
  telegram_db = s.telegram_db;
  reason = safe_reason-OneOf reason;
}

after_change-IsSane :
    (now : ℕ) (previous h : BridgeHealthState) → IsSane h → IsSane (after_change now previous h)
unfolding after_change
after_change-IsSane now previous h s = record {
  websocket = s.websocket;
  meshcore = s.meshcore;
  polling = s.polling;
  audit_db = s.audit_db;
  telegram_db = s.telegram_db;
  reason = s.reason;
}

if-IsSane : (b : Bool) (h k : BridgeHealthState) → IsSane h → IsSane k → IsSane (if b then h else k)
if-IsSane true h k s r = s
if-IsSane false h k s r = r

-- the states that the operations write
polling_known :
    (state : String)
    → OneOf ("disabled" ∷ "connected" ∷ "degraded" ∷ "disconnected" ∷ []) (
        if str_eq state "disabled"
          || str_eq state "connected"
          || str_eq state "degraded"
          || str_eq state "disconnected"
        then state
        else "degraded")
polling_known state = ground (
  arith,
  eq_iff state "disabled",
  eq_iff state "connected",
  eq_iff state "degraded",
  eq_iff state "disconnected",
)

db_known : (state : String) → OneOf ("ok" ∷ "degraded" ∷ []) (known_db_state state)
db_known state = ground (arith, eq_iff state "ok", eq_iff state "degraded")

assigned-IsSane :
    (target : String) (value : Bool) (h : BridgeHealthState)
    → IsSane h
    → IsSane (assign_override target value h)
unfolding assign_override
assigned-IsSane target value h s =
    if-IsSane (str_eq target "telegram_to_meshcore") _ _ (assumption)
      (if-IsSane (str_eq target "meshcore_to_telegram") _ _ (assumption) (assumption))

overridden-IsSane :
    (now : ℕ) (target : String) (value : Bool) (h : BridgeHealthState) (before after : Option Bool)
    → IsSane h
    → IsSane (finish_override now target value h before after).1
overridden-IsSane now target value h none after s = s
overridden-IsSane now target value h (some b) none s = assigned-IsSane target value h s
overridden-IsSane now target value h (some b) (some a) s =
    after_change-IsSane now h _ (assigned-IsSane target value h s)

-- a database state is written, and a degraded one is a failure
db_failure-IsSane :
    (now : ℕ) (state : String) (reason : Option String) (h : BridgeHealthState)
    → IsSane h
    → IsSane (db_failure now state reason h)
db_failure-IsSane now state reason h s =
    if-IsSane (str_eq state "degraded") _ _ (failed-IsSane now _ h s) s

-- Every operation, whatever texts it is given, keeps the states and the failure reason listed.
pub step-IsSane : (now : ℕ) (op : Op) (h : BridgeHealthState) → IsSane h → IsSane (step now op h)
unfolding step
step-IsSane now (set_change_callback given) h s = unfold Ops.set_change_callback in assumption
step-IsSane now (configure enabled tg mc confirmation) h s =
    unfold Ops.configure in
    after_change-IsSane now h _ (record {
      websocket = s.websocket;
      meshcore = s.meshcore;
      polling = ground arith;
      audit_db = s.audit_db;
      telegram_db = s.telegram_db;
      reason = s.reason;
    })
step-IsSane now (set_runtime_override target value) h s =
    unfold Overrides.set_runtime_override in overridden-IsSane now target value h _ _ s
step-IsSane now reset_runtime_overrides h s =
    unfold Overrides.reset_runtime_overrides in after_change-IsSane now h _ (assumption)
step-IsSane now (set_meshcore_connected connected) h s =
    unfold Ops.set_meshcore_connected in
    after_change-IsSane now h _ (record {
      websocket = ground arith;
      meshcore = ground arith;
      polling = s.polling;
      audit_db = s.audit_db;
      telegram_db = s.telegram_db;
      reason = s.reason;
    })
step-IsSane now (set_telegram_polling state) h s =
    unfold Ops.set_telegram_polling in
    after_change-IsSane now h _ (assumption (polling_known state))
step-IsSane now record_command_processed h s =
    unfold Ops.record_command_processed in after_change-IsSane now h _ (assumption)
step-IsSane now (record_tg_to_mc success reason) h s =
    unfold Ops.record_tg_to_mc in
    after_change-IsSane now h _
      (if-IsSane success _ _ (assumption) (failed-IsSane now reason _ (assumption)))
step-IsSane now (record_mc_to_tg success reason) h s =
    unfold Ops.record_mc_to_tg in
    after_change-IsSane now h _
      (if-IsSane success _ _ (assumption) (failed-IsSane now reason _ (assumption)))
step-IsSane now (set_audit_db_health state reason) h s =
    unfold Ops.set_audit_db_health in
    after_change-IsSane now h _ (
      db_failure-IsSane now (known_db_state state) reason
        (record h { audit_db_health = known_db_state state }) (assumption (db_known state)))
step-IsSane now (set_telegram_db_health state reason) h s =
    unfold Ops.set_telegram_db_health in
    after_change-IsSane now h _ (
      db_failure-IsSane now (known_db_state state) reason
        (record h { telegram_db_health = known_db_state state }) (assumption (db_known state)))
step-IsSane now (record_failure reason) h s =
    unfold Ops.record_failure in after_change-IsSane now h _ (failed-IsSane now reason h s)

initial-IsSane : (version : String) (started_at : ℕ) → IsSane (initial version started_at)
unfolding safe_failure_reasons
initial-IsSane version started_at = record {
  websocket = inr (inl refl);
  meshcore = inr (inl refl);
  polling = inl refl;
  audit_db = inl refl;
  telegram_db = inl refl;
  reason = inl refl;
}

run_keeps-IsSane : (ops : List (ℕ × Op)) (h : BridgeHealthState) → IsSane h → IsSane (run ops h)
unfolding run
run_keeps-IsSane [] h s = s
run_keeps-IsSane ((now, op) ∷ ops) h s =
    run_keeps-IsSane ops (step now op h) (step-IsSane now op h s)

-- After any operations on a new health state, with any texts, the connection and database states
-- and the failure reason are listed ones.
pub run-IsSane :
    (version : String) (started_at : ℕ) (ops : List (ℕ × Op))
    → IsSane (run ops (initial version started_at))
run-IsSane version started_at ops =
    run_keeps-IsSane ops (initial version started_at) (initial-IsSane version started_at)
