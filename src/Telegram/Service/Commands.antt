-- ===== src/Telegram/Service/Commands.antt =====
-- telegram/service.py: a command that comes by Telegram, from `_process_command_update` on.
use meshcore_control_bridge.Common.{Bool, true, false, Option, none, some, if◌then◌else◌}
use meshcore_control_bridge.Python.{
  telegram_conflict_error, Result, ok, raise, is_exception, is_transport_error,
}
use meshcore_control_bridge.Text.Utf8.{Text}
use meshcore_control_bridge.Models.{InboundMessage, OutboundMessage}
use meshcore_control_bridge.Commands.Registry.{resolve}
use meshcore_control_bridge.Commands.Router.{Router, denied_reply, handle}
use meshcore_control_bridge.World.Events.{AuditTrail}
use meshcore_control_bridge.World.Exec.{World, Environment, Exec, ◌>>=◌, ◌>>◌, pure, throw, post}
use meshcore_control_bridge.Audit.{sent_event, failed_event}
use meshcore_control_bridge.Bridge.{normalized}
use meshcore_control_bridge.Telegram.SafeText.{trim_telegram_response, safe_command_text}
use meshcore_control_bridge.Telegram.Service.{
  telegram_sender_id, Externals, TelegramService, TelegramUpdateDecision, Received, settle,
  inbound_message, message_received,
}

-- The clauses of `_process_command_update`: a conflict goes on, any other fault of the transport to
-- Telegram is logged and passes.
abbrev pub forgive_response : Result (Unit {0}) × World → Result (Unit {0}) × World
forgive_response (ok u, w) = (ok u, w)
forgive_response (raise telegram_conflict_error, w) = (raise telegram_conflict_error, w)
forgive_response (raise e, w) = if is_transport_error e then (ok tt, w) else (raise e, w)

module _ {H : Type 0} (env : Environment) (python : Externals) (service : TelegramService H) where
  -- `if self.audit_flow is not None and audit_trail is not None`
  abbrev pub with_trail :
      Option Bool → Option AuditTrail → (Bool → AuditTrail → Exec AuditTrail) → Exec (Unit {0})
  with_trail (some enabled) (some trail) write = write enabled trail >> pure tt
  with_trail _ _ write = pure tt

  -- Behind `client.send_message`. The sleep after a rate limit is no step of the state.
  unfoldable pub after_response :
      OutboundMessage → Option AuditTrail → Result (Unit {0}) × World → Result (Unit {0}) × World
  after_response outbound trail (ok _, w) =
      with_trail service.audit_flow trail (λ enabled t. sent_event env enabled t outbound) w
  after_response outbound trail (raise e, w) =
      if is_exception e
      then (with_trail service.audit_flow trail (λ enabled t. failed_event env enabled t)
            >> throw e)
          w
      else (raise e, w)

  unfoldable pub response_to : InboundMessage → Text → OutboundMessage
  response_to message body = record {
    destination = telegram_sender_id;
    channel_index = service.channel_index;
    body = trim_telegram_response body;
    reply_to = message.message_id;
    reply_target = message.reply_target;
  }

  -- `_send_command_response`
  unfoldable pub send_command_response : InboundMessage → Option AuditTrail → Text → Exec (Unit {0})
  unfolding after_response response_to
  send_command_response message trail body w =
      let outbound = response_to message body in
      after_response outbound trail (post env outbound.body w)

  -- The registry of the router, where there is one, resolves the name.
  abbrev pub knows : Option (Router H) → Text → Bool
  knows none name = false
  knows (some router) name = elim (resolve router.lower name router.registry) [
    | none ↦ false
    | some d ↦ true
  ]

  -- the router, where there is one, answers
  unfoldable pub answer_by :
      Option (Router H)
      → InboundMessage
      → Option AuditTrail
      → Exec (Option Text × Option AuditTrail)
  answer_by none message trail = pure (some denied_reply, trail)
  answer_by (some router) message trail =
      handle env (normalized service.audit_flow) router message trail

  unfoldable pub respond : InboundMessage → Option Text × Option AuditTrail → Exec (Unit {0})
  unfolding send_command_response
  respond message (none, trail) = pure tt
  respond message (some body, trail) = send_command_response message trail body

  -- The `try` of `_process_command_update`.
  unfoldable pub answer_and_respond : InboundMessage → Option AuditTrail → Exec (Unit {0})
  unfolding answer_by respond
  answer_and_respond message trail w =
      forgive_response
        ((answer_by service.router message trail >>= λ answer. respond message answer) w)

  -- `_process_command_update`
  unfoldable pub process_command_update : Received → Text → Exec TelegramUpdateDecision
  unfolding answer_and_respond
  process_command_update update body = do
    let kept = safe_command_text python.lower service.command_prefix (knows service.router) body
    message ← inbound_message env python service update kept
    trail ← message_received env python service message
    responded ← answer_and_respond message trail
    settle env "telegram.update.accepted" "command" update (some "text")
