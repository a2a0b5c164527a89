-- ===== src/Audit.antt =====
-- storage/audit_flow.py: `AuditFlow`, the chain of audit events of one message.
pub mod Quiet
use meshcore_control_bridge.Common.{
  ℕ, String, Bool, true, false, not, ◌||◌, Option, none, some, List, [], ◌∷◌, ◌++◌, if◌then◌else◌,
  str_eq, length,
}
use meshcore_control_bridge.Python.{Result, ok, raise, value_error}
use meshcore_control_bridge.Text.Utf8.{Text}
use meshcore_control_bridge.Text.Space.{is_empty}
use meshcore_control_bridge.Models.{InboundMessage, OutboundMessage, MessageIdentity}
use meshcore_control_bridge.Commands.Parser.{ParsedCommand}
use meshcore_control_bridge.World.Events.{
  EventKind, message_received, message_ignored, command_parsed, command_authorization,
  command_execution, response_sent, response_failed, override_requested, override_denied,
  override_applied, override_reset, AuditTrail,
}
use meshcore_control_bridge.World.Exec.{
  World, Environment, Exec, ◌>>=◌, ◌>>◌, pure, throw, audit_write, record_event,
}

abbrev pub ignore_reasons : List String
ignore_reasons =
    "wrong_channel" ∷ "room_not_allowed" ∷ "duplicate" ∷ "rate_limited" ∷ "not_a_command"
    ∷ "sender_not_registered" ∷ []

abbrev pub authorization_reasons : List String
authorization_reasons =
    "allowed" ∷ "sender_not_registered" ∷ "room_not_allowed" ∷ "command_not_readonly"
    ∷ "insufficient_role" ∷ []

abbrev pub command_results : List String
command_results = "ignored" ∷ "unknown" ∷ "unauthorized" ∷ "succeeded" ∷ "failed" ∷ []

abbrev pub is_member : String → List String → Bool
is_member s [] = false
is_member s (r ∷ rs) = str_eq s r || is_member s rs

-- `AuditTrail.child`, which changes the trail in place and returns it
abbrev pub child : AuditTrail → ℕ → AuditTrail
child trail id = record trail { latest_event_id = some id }

-- `_message_correlation_id` raises where the message has no identity.
unfoldable pub correlated : InboundMessage → Exec String
correlated message = elim message.message [
  | none ↦ throw value_error
  | some identity ↦ pure identity.correlation_id
]

abbrev pub unrecorded : InboundMessage → String → AuditTrail
unrecorded message correlation_id = record {
  message = message;
  received_event_id = none;
  latest_event_id = none;
  correlation_id = correlation_id;
}

module _ (env : Environment) (normalized_enabled : Bool) where
  unfoldable pub degraded_trail : InboundMessage → Exec AuditTrail
  degraded_trail message = do
    correlation_id ← correlated message
    pure (unrecorded message correlation_id)

  unfoldable pub received : InboundMessage → Exec AuditTrail
  received message = do
    correlation_id ← correlated message
    if not normalized_enabled then pure (unrecorded message correlation_id) else do
      id ← record_event env message_received none correlation_id
      pure (record {
        message = message;
        received_event_id = some id;
        latest_event_id = some id;
        correlation_id = correlation_id;
      })

  -- `_record_normalized_only`, with the cause that is named
  unfoldable pub record_normalized : AuditTrail → EventKind → Option ℕ → Exec AuditTrail
  record_normalized trail kind causation =
      if not normalized_enabled
      then pure trail
      else do id ← record_event env kind causation trail.correlation_id; pure (child trail id)

  -- An ignored message is caused by its reception, every other event by the latest one.
  unfoldable pub ignored : AuditTrail → String → Exec AuditTrail
  ignored trail reason =
      if is_member reason ignore_reasons
      then record_normalized trail (message_ignored reason) trail.received_event_id
      else throw value_error

  -- `_parse_result`; `known` says that the registry resolves the name.
  abbrev parse_result : Option ParsedCommand → Bool → String
  parse_result none known = "not_a_command"
  parse_result (some parsed) known =
      if is_empty parsed.name then "malformed" else if known then "recognized" else "unknown"

  abbrev known_name : Option ParsedCommand → Bool → Option Text
  known_name none known = none
  known_name (some parsed) known = if known then some parsed.name else none

  unfoldable pub parsed_event : AuditTrail → Option ParsedCommand → Bool → Exec AuditTrail
  parsed_event trail parsed known =
      record_normalized trail (command_parsed (parse_result parsed known) (known_name parsed known))
        trail.latest_event_id

  unfoldable pub authorization : AuditTrail → String → String → Text → Exec AuditTrail
  authorization trail result reason command_name =
      if not (is_member result ("allowed" ∷ "denied" ∷ []))
      then throw value_error
      else if not (is_member reason authorization_reasons)
      then throw value_error
      else record_normalized trail (command_authorization result reason command_name)
          trail.latest_event_id

  -- The command's rows, and the event where the normalised audit is on, in one transaction.
  unfoldable pub execution : AuditTrail → Text → String → Bool → Exec AuditTrail
  execution trail command result registered =
      if not (is_member result command_results) then throw value_error else do
        id ← audit_write env λ n w. record w {
          commands =
              w.commands
              ++ record { message = trail.message; command = command; result = result } ∷ [];
          events =
              if normalized_enabled
              then w.events
                ++ record {
                  id = n;
                  kind = command_execution (if registered then some command else none) result;
                  causation = trail.latest_event_id;
                  correlation = trail.correlation_id;
                }
                  ∷ []
              else w.events;
        }
        pure (if normalized_enabled then child trail id else trail)

  unfoldable pub sent_event : AuditTrail → OutboundMessage → Exec AuditTrail
  sent_event trail outbound =
      record_normalized trail (response_sent (length outbound.body)) trail.latest_event_id

  unfoldable pub failed_event : AuditTrail → Exec AuditTrail
  failed_event trail = record_normalized trail response_failed trail.latest_event_id

  abbrev is_override : EventKind → Bool
  is_override (override_requested operation target value) = true
  is_override (override_denied operation target value) = true
  is_override (override_applied target before after value) = true
  is_override (override_reset target before after value) = true
  is_override _ = false

  unfoldable pub runtime_override_event : AuditTrail → EventKind → Exec AuditTrail
  runtime_override_event trail kind =
      if not (is_override kind)
      then throw value_error
      else record_normalized trail kind trail.latest_event_id
