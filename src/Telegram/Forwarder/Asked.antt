-- ===== src/Telegram/Forwarder/Asked.antt =====
-- The audit event before the forwarding: what it leaves of the state.
use meshcore_control_bridge.Common.{
  ℕ, suc, ◌≡◌, refl, ◌∙◌, String, Bool, true, false, Bool-cases, Option, none, some, inl, inr,
  if◌then◌else◌,
}
use meshcore_control_bridge.Python.{Exn, Result, ok, raise, is_sqlite_error}
use meshcore_control_bridge.Health.State.{BridgeHealthState, after_change, record_failure_locked}
use meshcore_control_bridge.Health.Ops.{set_audit_db_health}
use meshcore_control_bridge.World.Events.{EventKind}
use meshcore_control_bridge.World.Exec.{
  World, Environment, continue, ◌>>=◌, pure, audit_write, record_event, guarded_sqlite,
  recover_sqlite,
}
use meshcore_control_bridge.World.Grows.{Fixes, Fixes-bind, guarded_sqlite-Fixes}
use meshcore_control_bridge.Telegram.Forwarder.{
  Forwarding, sqlite_reason, degrade_audit, audit_bridge, effective_forward,
}

-- The reading of the clock at which the store is asked: the audit event before it is one answer.
abbrev pub asked_at : Forwarding → World → ℕ
asked_at config w = if config.audit then suc w.reads else w.reads

-- Whether the direction to Telegram is on.
abbrev pub is_on_of : Forwarding → World → Bool
is_on_of config w = effective_forward config.forward w.health

module _ (env : Environment) (config : Forwarding) where
  record_event-on :
      (kind : EventKind) (causation : Option ℕ) (correlation : String)
      → Fixes (is_on_of config) (record_event env kind causation correlation)
  unfolding record_event audit_write
  record_event-on kind causation correlation = record {
    at = λ w. answered w (env.audit_fault w.reads);
  }
    where
      answered :
          (w : World) (fault : Option Exn)
          → is_on_of config
              (record_event
                (record env { audit_fault = λ n. fault })
                kind
                causation
                correlation
                w).1
            ≡ is_on_of config w
      answered w none = refl
      answered w (some e) = refl

  degraded-on :
      (now : ℕ) (e : Exn) (h : Option BridgeHealthState)
      → effective_forward config.forward (elim h [
        | none ↦ none
        | some s ↦ some (set_audit_db_health now "degraded" (some (sqlite_reason e)) s)
      ])
        ≡ effective_forward config.forward h
  unfolding set_audit_db_health after_change record_failure_locked
  degraded-on now e none = refl
  degraded-on now e (some s) = refl

  pub audit_bridge-on :
      (enabled : Bool) (kind : EventKind) (causation : Option ℕ) (correlation : String)
      → Fixes (is_on_of config) (audit_bridge env enabled kind causation correlation)
  unfolding audit_bridge
  audit_bridge-on false kind causation correlation = unfold pure in record { at = λ w. refl }
  audit_bridge-on true kind causation correlation =
      guarded_sqlite-Fixes (is_on_of config) _ _ _
        (λ e w. unfold degrade_audit in degraded-on (env.clock w.reads) e w.health)
        (Fixes-bind (is_on_of config) _ _ (record_event-on kind causation correlation)
          λ id. unfold pure in record { at = λ w. refl })

  record_event-asked :
      (kind : EventKind) (causation : Option ℕ) (correlation : String) (w : World)
      → ((record_event env kind causation correlation w).1.telegram ≡ w.telegram)
        × ((record_event env kind causation correlation w).1.reads ≡ suc w.reads)
  unfolding record_event audit_write
  record_event-asked kind causation correlation w = answered (env.audit_fault w.reads)
    where
      answered :
          (fault : Option Exn)
          → ((record_event
                (record env { audit_fault = λ n. fault })
                kind
                causation
                correlation
                w).1.telegram
              ≡ w.telegram)
            × ((record_event
                  (record env { audit_fault = λ n. fault })
                  kind
                  causation
                  correlation
                  w).1.reads
                ≡ suc w.reads)
      answered none = (refl, refl)
      answered (some e) = (refl, refl)

  degraded-asked :
      (r : Result ℕ) (w : World)
      → ((recover_sqlite (degrade_audit env) none (continue r (λ id. pure (some id)) w)).1.telegram
          ≡ w.telegram)
        × ((recover_sqlite (degrade_audit env) none (continue r (λ id. pure (some id)) w)).1.reads
            ≡ w.reads)
  unfolding pure degrade_audit
  degraded-asked (ok id) w = (refl, refl)
  degraded-asked (raise e) w = elim (Bool-cases (is_sqlite_error e)) [
    | inl sqlite ↦ rw sqlite (refl, refl)
    | inr passed ↦ rw passed (refl, refl)
  ]

  -- the audit event leaves the tables of the Telegram side, and is one answer where it is written
  pub audit_bridge-asked :
      (kind : EventKind) (causation : Option ℕ) (correlation : String) (w : World) (audit : Bool)
      → ((audit_bridge env audit kind causation correlation w).1.telegram ≡ w.telegram)
        × ((audit_bridge env audit kind causation correlation w).1.reads
            ≡ (if audit then suc w.reads else w.reads))
  unfolding audit_bridge guarded_sqlite ◌>>=◌
  audit_bridge-asked kind causation correlation w false = unfold pure in (refl, refl)
  audit_bridge-asked kind causation correlation w true =
      let event = record_event env kind causation correlation w in
      let (tables, reads) = record_event-asked kind causation correlation w in
      let (same_tables, same_reads) = degraded-asked event.0 event.1 in
      (same_tables ∙ tables, same_reads ∙ reads)
