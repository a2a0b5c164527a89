-- ===== src/Audit/Quiet.antt =====
-- The audit changes only the audit: no step of it decides about a message or sends one.
use meshcore_control_bridge.Common.{ℕ, String, Bool, Option, none, some, refl}
use meshcore_control_bridge.Python.{value_error}
use meshcore_control_bridge.Text.Utf8.{Text}
use meshcore_control_bridge.Models.{InboundMessage, OutboundMessage, MessageIdentity}
use meshcore_control_bridge.Commands.Parser.{ParsedCommand}
use meshcore_control_bridge.World.Events.{EventKind, AuditTrail}
use meshcore_control_bridge.World.Exec.{Environment, pure, throw}
use meshcore_control_bridge.World.Keeps.{
  Keeps, Keeps-pure, Keeps-throw, Keeps-if, Keeps-bind, Keeps-audit_write, keeps_rules,
}
use meshcore_control_bridge.Audit.{
  correlated, degraded_trail, received, record_normalized, ignored, parsed_event, authorization,
  execution, sent_event, failed_event,
}

pub correlated-Keeps : (message : InboundMessage) → Keeps (correlated message)
unfolding correlated
correlated-Keeps message = identified message.message
  where
    identified :
        (o : Option MessageIdentity)
        → Keeps {A = String} (elim o [ none ↦ throw value_error | some i ↦ pure i.correlation_id ])
    identified none = Keeps-throw value_error
    identified (some i) = Keeps-pure i.correlation_id

module _ (env : Environment) (enabled : Bool) where
  pub degraded_trail-Keeps : (message : InboundMessage) → Keeps (degraded_trail env enabled message)
  unfolding degraded_trail
  degraded_trail-Keeps message = search (keeps_rules, correlated-Keeps)

  pub received-Keeps : (message : InboundMessage) → Keeps (received env enabled message)
  unfolding received
  received-Keeps message = search (keeps_rules, correlated-Keeps)

  pub record_normalized-Keeps :
      (trail : AuditTrail) (kind : EventKind) (causation : Option ℕ)
      → Keeps (record_normalized env enabled trail kind causation)
  unfolding record_normalized
  record_normalized-Keeps trail kind causation = search keeps_rules

  pub ignored-Keeps :
      (trail : AuditTrail) (reason : String) → Keeps (ignored env enabled trail reason)
  unfolding ignored
  ignored-Keeps trail reason = search (keeps_rules, record_normalized-Keeps)

  pub parsed_event-Keeps :
      (trail : AuditTrail) (parsed : Option ParsedCommand) (known : Bool)
      → Keeps (parsed_event env enabled trail parsed known)
  unfolding parsed_event
  parsed_event-Keeps trail parsed known = record_normalized-Keeps trail _ _

  pub authorization-Keeps :
      (trail : AuditTrail) (result reason : String) (name : Text)
      → Keeps (authorization env enabled trail result reason name)
  unfolding authorization
  authorization-Keeps trail result reason name = search (keeps_rules, record_normalized-Keeps)

  pub execution-Keeps :
      (trail : AuditTrail) (command : Text) (result : String) (registered : Bool)
      → Keeps (execution env enabled trail command result registered)
  unfolding execution
  execution-Keeps trail command result registered = Keeps-if _ _ _ (Keeps-throw value_error) (
      Keeps-bind _ _
        (Keeps-audit_write env _
          λ n w. record { rows = refl; limiter = refl; sent = refl; handled = refl })
        λ id. Keeps-pure _)

  pub sent_event-Keeps :
      (trail : AuditTrail) (outbound : OutboundMessage)
      → Keeps (sent_event env enabled trail outbound)
  unfolding sent_event
  sent_event-Keeps trail outbound = record_normalized-Keeps trail _ _

  pub failed_event-Keeps : (trail : AuditTrail) → Keeps (failed_event env enabled trail)
  unfolding failed_event
  failed_event-Keeps trail = record_normalized-Keeps trail _ _
