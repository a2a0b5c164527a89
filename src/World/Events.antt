-- ===== src/World/Events.antt =====
-- What the audit stores (storage/audit_flow.py, storage/normalized_audit.py, storage/repositories.py).
use meshcore_control_bridge.Common.{ℕ, String, Bool, Option}
use meshcore_control_bridge.Text.Utf8.{Text}
use meshcore_control_bridge.Models.{InboundMessage}

-- The types of events with the metadata that the properties read. The requested value of an override
-- is none for the configured one.
pub data EventKind : Type 0 where
  message_received : EventKind
  message_ignored : String → EventKind
  command_parsed : String → Option Text → EventKind
  command_authorization : String → String → Text → EventKind
  command_execution : Option Text → String → EventKind
  response_sent : ℕ → EventKind
  response_failed : EventKind
  override_requested : String → String → Option Bool → EventKind
  override_denied : String → String → Option Bool → EventKind
  override_applied : String → Bool → Bool → Option Bool → EventKind
  override_reset : String → Bool → Bool → Option Bool → EventKind
  bridge_received : String → ℕ → EventKind
  bridge_ignored : String → String → ℕ → Bool → EventKind
  bridge_failed : String → String → ℕ → Bool → EventKind
  bridge_forwarded : String → ℕ → Bool → EventKind

pub record Event : Type 0 where
  pub id : ℕ
  pub kind : EventKind
  pub causation : Option ℕ
  pub correlation : String

-- A row of the tables `inbound_messages` and `command_executions`, written together.
pub record CommandRow : Type 0 where
  pub message : InboundMessage
  pub command : Text
  pub result : String

-- `AuditTrail` of storage/audit_flow.py
pub record AuditTrail : Type 0 where
  pub message : InboundMessage
  pub received_event_id : Option ℕ
  pub latest_event_id : Option ℕ
  pub correlation_id : String
