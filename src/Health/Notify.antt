-- ===== src/Health/Notify.antt =====
-- A change of the overall status reaches the callback as a critical one.
use meshcore_control_bridge.Common.{
  ℕ, ◌≡◌, ◌≢◌, refl, String, Bool, true, false, Option, none, some, [], ◌∷◌, ◌++◌, arith, str_eq,
  eq_iff, if◌then◌else◌, sym, inl, inr, Bool-cases,
}
use meshcore_control_bridge.Health.Snapshot.{status, critical_transition_from}
use meshcore_control_bridge.Health.State.{
  BridgeHealthState, snapshot, after_change, record_failure_locked,
}
use meshcore_control_bridge.Health.Ops
use meshcore_control_bridge.Health.Ops.{db_failure, known_db_state}
use meshcore_control_bridge.Health.Overrides
use meshcore_control_bridge.Health.Overrides.{assign_override, finish_override}
use meshcore_control_bridge.Health.Step.{
  Op, set_change_callback, configure, set_runtime_override, reset_runtime_overrides,
  set_meshcore_connected, set_telegram_polling, record_command_processed, record_tg_to_mc,
  record_mc_to_tg, set_audit_db_health, set_telegram_db_health, record_failure, step,
}

-- The overall status at a time.
abbrev pub status_at : ℕ → BridgeHealthState → String
status_at now h = status (snapshot now h)

-- What a changed state must keep for its callback to be told.
record Heard (h h' : BridgeHealthState) : Type 0 where
  listening : h'.has_callback ≡ h.has_callback
  pending : h'.notified ≡ h.notified

plain :
    {h : BridgeHealthState} (h' : BridgeHealthState)
    → h'.has_callback ≡ h.has_callback
    → h'.notified ≡ h.notified
    → Heard h h'
plain h' p q = record { listening = p; pending = q }

if-Heard :
    (b : Bool) (h k l : BridgeHealthState) → Heard h k → Heard h l → Heard h (if b then k else l)
if-Heard true h k l p q = p
if-Heard false h k l p q = q

failed-Heard :
    (now : ℕ) (reason : String) (h k : BridgeHealthState)
    → Heard h k
    → Heard h (record_failure_locked now reason k)
unfolding record_failure_locked
failed-Heard now reason h k p = record { listening = p.listening; pending = p.pending }

db_failure-Heard :
    (now : ℕ) (state : String) (reason : Option String) (h k : BridgeHealthState)
    → Heard h k
    → Heard h (db_failure now state reason k)
db_failure-Heard now state reason h k p =
    if-Heard (str_eq state "degraded") h _ _ (failed-Heard now _ h k p) p

assign_override-Heard :
    (target : String) (value : Bool) (h : BridgeHealthState)
    → Heard h (assign_override target value h)
unfolding assign_override
assign_override-Heard target value h =
    if-Heard (str_eq target "telegram_to_meshcore") h _ _
      (record { listening = refl; pending = refl })
      (if-Heard (str_eq target "meshcore_to_telegram") h _ _
        (record { listening = refl; pending = refl }) (record { listening = refl; pending = refl }))

-- a status can change only by an operation that ends in `_after_change`
module _ (now : ℕ) where
  same_status :
      (h h' : BridgeHealthState) → status_at now (after_change now h h') ≡ status_at now h'
  unfolding after_change snapshot status
  same_status h h' = refl

  told :
      (h h' : BridgeHealthState)
      → h.has_callback ≡ true
      → Heard h h'
      → status_at now h ≢ status_at now (after_change now h h')
      → (after_change now h h').notified ≡ h.notified ++ true ∷ []
  unfolding after_change critical_transition_from
  told h h' on heard changed = ground (
    arith,
    heard.listening,
    heard.pending,
    same_status h h',
    eq_iff (status_at now h') (status_at now h),
  )

  assigned_status :
      (target : String) (value : Bool) (h : BridgeHealthState)
      → status_at now (assign_override target value h) ≡ status_at now h
  unfolding assign_override snapshot status
  assigned_status target value h = elim (Bool-cases (str_eq target "telegram_to_meshcore")) [
    | inl e ↦ rw e refl
    | inr e ↦ elim (Bool-cases (str_eq target "meshcore_to_telegram")) [
      | inl k ↦ rw (e, k) refl
      | inr k ↦ rw (e, k) refl
    ]
  ]

  overridden :
      (target : String) (value : Bool) (h : BridgeHealthState) (before after : Option Bool)
      → h.has_callback ≡ true
      → status_at now h ≢ status_at now (finish_override now target value h before after).1
      → (finish_override now target value h before after).1.notified ≡ h.notified ++ true ∷ []
  overridden target value h none after on changed = absurd (changed refl)
  overridden target value h (some b) none on changed =
      absurd (changed (sym (assigned_status target value h)))
  overridden target value h (some b) (some a) on changed =
      told h _ on (assign_override-Heard target value h) changed

  -- Where a callback is set, every operation that changes the overall status between `ok` and
  -- `degraded` calls it exactly once, and as critical.
  pub step_notifies :
      (op : Op) (h : BridgeHealthState)
      → h.has_callback ≡ true
      → status_at now h ≢ status_at now (step now op h)
      → (step now op h).notified ≡ h.notified ++ true ∷ []
  unfolding step
  step_notifies (set_change_callback given) h on changed =
      absurd (changed (unfold Ops.set_change_callback snapshot status in refl))
  step_notifies (configure enabled tg mc confirmation) h on changed =
      unfold Ops.configure in told h _ on (plain _ refl refl) changed
  step_notifies (set_runtime_override target value) h on changed =
      unfold Overrides.set_runtime_override in overridden target value h _ _ on changed
  step_notifies reset_runtime_overrides h on changed =
      unfold Overrides.reset_runtime_overrides in told h _ on (plain _ refl refl) changed
  step_notifies (set_meshcore_connected connected) h on changed =
      unfold Ops.set_meshcore_connected in told h _ on (plain _ refl refl) changed
  step_notifies (set_telegram_polling state) h on changed =
      unfold Ops.set_telegram_polling in told h _ on (plain _ refl refl) changed
  step_notifies record_command_processed h on changed =
      unfold Ops.record_command_processed in told h _ on (plain _ refl refl) changed
  step_notifies (record_tg_to_mc success reason) h on changed =
      unfold Ops.record_tg_to_mc in
      told h _ on
        (if-Heard success h _ _ (plain _ refl refl)
          (failed-Heard now reason h _ (plain _ refl refl)))
        changed
  step_notifies (record_mc_to_tg success reason) h on changed =
      unfold Ops.record_mc_to_tg in
      told h _ on
        (if-Heard success h _ _ (plain _ refl refl)
          (failed-Heard now reason h _ (plain _ refl refl)))
        changed
  step_notifies (set_audit_db_health state reason) h on changed =
      unfold Ops.set_audit_db_health in
      told h _ on (db_failure-Heard now _ reason h _ (plain _ refl refl)) changed
  step_notifies (set_telegram_db_health state reason) h on changed =
      unfold Ops.set_telegram_db_health in
      told h _ on (db_failure-Heard now _ reason h _ (plain _ refl refl)) changed
  step_notifies (record_failure reason) h on changed =
      unfold Ops.record_failure in
      told h _ on (failed-Heard now reason h h (plain h refl refl)) changed
