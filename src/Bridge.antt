-- ===== src/Bridge.antt =====
-- app.py: `BridgeService.process_message`, from a received message to the reply that is sent.
pub mod Laws
use meshcore_control_bridge.Common.{
  ℕ, suc, ◌==◌, String, Bool, true, false, not, ◌||◌, Option, none, some, List, [], ◌∷◌,
  if◌then◌else◌, codes,
}
use meshcore_control_bridge.Python.{Exn, timeout_error, Result, ok, raise, is_exception}
use meshcore_control_bridge.Text.Utf8.{Text}
use meshcore_control_bridge.Text.Trim.{trim_lora_response}
use meshcore_control_bridge.Models.{InboundMessage, OutboundMessage}
use meshcore_control_bridge.Auth.{readonly, AuthorizedUser, allows_room, require_message}
use meshcore_control_bridge.RateLimit.{allow}
use meshcore_control_bridge.Dedup.{seen_or_store}
use meshcore_control_bridge.Health.Ops.{record_failure}
use meshcore_control_bridge.Commands.Parser.{starts_with}
use meshcore_control_bridge.Commands.Router.{Router, handle}
use meshcore_control_bridge.World.Events.{AuditTrail}
use meshcore_control_bridge.World.Exec.{
  World, Environment, Exec, ◌>>=◌, ◌>>◌, pure, send, on_health, guarded, sqlite_write_retries,
  sqlite_write_retry_initial,
}
use meshcore_control_bridge.Audit.{degraded_trail, received, ignored, sent_event, failed_event}

-- `NormalTextForwarder.forward_normal_text`
abbrev pub Forwarder : Type 0
Forwarder = InboundMessage → Option AuditTrail → Exec Bool

-- `audit_flow` says whether there is an `AuditFlow`, and whether it records normalised events.
pub record BridgeService (H : Type 0) : Type 0 where
  pub router : Router H
  pub channel_index : ℕ
  pub meshcore_response_max_bytes : ℕ
  pub window_seconds : ℕ
  pub audit_flow : Option Bool
  pub normal_text_forwarder : Option Forwarder

unfoldable pub contains : Text → Text → Bool
contains part [] = starts_with part []
contains part (c ∷ s) = starts_with part (c ∷ s) || contains part s

-- `text` is `str(exc).lower()`.
abbrev pub transport_error_reason : Text → Exn → String
transport_error_reason text timeout_error = "transport_timeout"
transport_error_reason text _ =
    if contains (codes "disconnect") text || contains (codes "closed") text
    then "websocket_disconnected"
    else if contains (codes "service") text
    then "transport_service_error"
    else "transport_error"

abbrev pub normalized : Option Bool → Bool
normalized none = false
normalized (some enabled) = enabled

-- `_audit_message_received`
unfoldable pub audit_message_received :
    Environment → Option Bool → InboundMessage → Exec (Option AuditTrail)
audit_message_received env none message = pure none
audit_message_received env (some enabled) message = do
  trail ← guarded env true (degraded_trail env enabled message) (received env enabled message)
  pure (some trail)

-- The three other wrappers: a fault of the audit leaves the trail as it was, and a fault of SQLite
-- marks the audit as degraded.
unfoldable pub audit_or_degrade :
    Environment → (AuditTrail → Exec AuditTrail) → Option AuditTrail → Exec (Option AuditTrail)
audit_or_degrade env write none = pure none
audit_or_degrade env write (some trail) = do
  trail' ← guarded env true (pure trail) (write trail)
  pure (some trail')

module _ {H : Type 0} (sha256 : Text → Text) (decimal : ℕ → Text) (env : Environment)
    (service : BridgeService H) where
  unfoldable pub audit_message_ignored : String → Option AuditTrail → Exec (Option AuditTrail)
  audit_message_ignored reason trail =
      audit_or_degrade env (λ t. ignored env (normalized service.audit_flow) t reason) trail

  unfoldable pub audit_response_sent :
      OutboundMessage → Option AuditTrail → Exec (Option AuditTrail)
  audit_response_sent outbound trail =
      audit_or_degrade env (λ t. sent_event env (normalized service.audit_flow) t outbound) trail

  unfoldable pub audit_response_failed : Option AuditTrail → Exec (Option AuditTrail)
  audit_response_failed trail =
      audit_or_degrade env (λ t. failed_event env (normalized service.audit_flow) t) trail

  abbrev pub failure_reason : Exn → String
  failure_reason e = transport_error_reason (service.router.lower (service.router.show_exn e)) e

  -- `_handle_response_send_failure`
  unfoldable pub handle_response_send_failure : Exn → Option AuditTrail → Exec (Option AuditTrail)
  handle_response_send_failure e trail w =
      audit_response_failed trail
        (on_health (record_failure (env.clock w.reads) (failure_reason e)) w)

  -- Behind `transport.send`.
  unfoldable pub after_send :
      OutboundMessage
      → Option AuditTrail
      → Result (Unit {0}) × World
      → Result (Option OutboundMessage) × World
  unfolding handle_response_send_failure
  after_send outbound trail (ok _, w) =
      (audit_response_sent outbound trail >> pure (some outbound)) w
  after_send outbound trail (raise e, w) =
      if is_exception e
      then (handle_response_send_failure e trail >> pure (some outbound)) w
      else (raise e, w)

  unfoldable pub deliver : OutboundMessage → Option AuditTrail → Exec (Option OutboundMessage)
  unfolding after_send
  deliver outbound trail w = after_send outbound trail (send env outbound w)

  unfoldable pub reply_to : InboundMessage → Text → OutboundMessage
  reply_to message body = record {
    destination = message.sender_id;
    channel_index = service.channel_index;
    body = body;
    reply_to = message.message_id;
    reply_target = message.reply_target;
  }

  -- `deduplicator.seen_or_store`, outside a transaction
  unfoldable pub is_duplicate : InboundMessage → Exec Bool
  is_duplicate message w =
      let stored =
        seen_or_store sha256 decimal service.window_seconds false sqlite_write_retries
          sqlite_write_retry_initial (env.dedup_answers w.reads) (env.clock w.reads) message
          w.rows in
      (stored.result, record w { rows = stored.tables; reads = suc w.reads })

  -- `rate_limiter.allow`
  unfoldable pub admit : String → Exec Bool
  admit sender_id w =
      let (limiter, allowed) = allow w.limiter sender_id (env.clock w.reads) in
      (ok allowed, record w { limiter = limiter })

  abbrev pub drop : String → Option AuditTrail → Exec (Option OutboundMessage)
  drop reason trail = audit_message_ignored reason trail >> pure none

  -- Where the router has no answer: normal text, for the forwarder if there is one.
  unfoldable pub forward_or_drop :
      InboundMessage
      → Option AuditTrail
      → Option Forwarder
      → Option AuthorizedUser
      → Exec (Option OutboundMessage)
  forward_or_drop message trail none user = drop "not_a_command" trail
  forward_or_drop message trail (some forward) none = drop "sender_not_registered" trail
  forward_or_drop message trail (some forward) (some user) = do
    handled ← forward message trail
    if handled then pure none else drop "not_a_command" trail

  unfoldable pub forward_text : InboundMessage → Option AuditTrail → Exec (Option OutboundMessage)
  unfolding forward_or_drop
  forward_text message trail =
      forward_or_drop message trail service.normal_text_forwarder
        (require_message service.router.authorizer message readonly)

  unfoldable pub after_reply :
      InboundMessage → Option AuditTrail → Option Text → Exec (Option OutboundMessage)
  unfolding forward_text reply_to deliver
  after_reply message trail none = forward_text message trail
  after_reply message trail (some text) =
      deliver (reply_to message (trim_lora_response text service.meshcore_response_max_bytes)) trail

  -- Behind the rate limiter.
  unfoldable pub after_admission :
      InboundMessage → Option AuditTrail → Bool → Exec (Option OutboundMessage)
  unfolding after_reply
  after_admission message trail false = do
    trail' ← audit_message_ignored "rate_limited" trail
    deliver (reply_to message (codes "Rate limit.")) trail'
  after_admission message trail true = do
    answer ← handle env (normalized service.audit_flow) service.router message trail
    after_reply message answer.1 answer.0

  -- Behind the guards on the channel and the room.
  unfoldable pub after_guards : InboundMessage → Option AuditTrail → Exec (Option OutboundMessage)
  unfolding is_duplicate admit after_admission
  after_guards message trail = do
    duplicate ← is_duplicate message
    if duplicate
        then drop "duplicate" trail
        else do allowed ← admit message.sender_id; after_admission message trail allowed

  -- The guards on the channel and the room.
  unfoldable pub guarded_message :
      InboundMessage → Option AuditTrail → Exec (Option OutboundMessage)
  unfolding after_guards
  guarded_message message trail =
      if not (message.channel_index == service.channel_index)
      then drop "wrong_channel" trail
      else if not (allows_room service.router.authorizer message)
      then drop "room_not_allowed" trail
      else after_guards message trail

  unfoldable pub process_message : InboundMessage → Exec (Option OutboundMessage)
  unfolding guarded_message
  process_message message = do
    trail ← audit_message_received env service.audit_flow message
    guarded_message message trail
