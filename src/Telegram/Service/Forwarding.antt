-- ===== src/Telegram/Service/Forwarding.antt =====
-- telegram/service.py: a text that comes by Telegram, from `_process_forward_update` on.
use meshcore_control_bridge.Common.{
  ℕ, String, Bool, true, false, Option, none, some, [], ◌++◌, if◌then◌else◌, codes,
}
use Prim.Native.String.{◌++◌ as str_append}
use meshcore_control_bridge.Python.{Result, ok, raise, is_exception}
use meshcore_control_bridge.Text.Utf8.{Text, byte_len}
use meshcore_control_bridge.Text.Space.{strip}
use meshcore_control_bridge.Models.{RoomRef, InboundMessage, OutboundMessage}
use meshcore_control_bridge.RateLimit.{allow}
use meshcore_control_bridge.Health.State.{
  BridgeHealthState, effective_telegram_to_meshcore, effective_forward_confirmation,
}
use meshcore_control_bridge.Health.Ops.{record_tg_to_mc}
use meshcore_control_bridge.World.Events.{
  EventKind, bridge_received, bridge_ignored, bridge_failed, bridge_forwarded,
}
use meshcore_control_bridge.World.Exec.{
  World, Environment, Exec, ◌>>=◌, ◌>>◌, pure, send, on_health,
}
use meshcore_control_bridge.Telegram.Store.{TelegramBridgeRecord, content_ref_hash}
use meshcore_control_bridge.Telegram.Render.{ForwardRenderResult, render_meshcore_forward_message}
use meshcore_control_bridge.Telegram.Forwarder.{
  meshcore_transport_name, telegram_room_id, correlation_id, audit_bridge,
  safe_create_bridge_record,
}
use meshcore_control_bridge.Telegram.Service.{
  telegram_sender_id, Externals, TelegramService, TelegramUpdateDecision, Received, settle,
  send_forward_confirmation, inbound_message,
}

abbrev pub meshcore_forward_success_text : Text
meshcore_forward_success_text = codes "Enviado a MeshCore."

abbrev pub meshcore_forward_failure_text : Text
meshcore_forward_failure_text = codes "No se pudo enviar a MeshCore."

-- `_effective_telegram_to_meshcore` and `_effective_forward_confirmation`
abbrev pub effective_to_meshcore : Bool → Option BridgeHealthState → Bool
effective_to_meshcore configured none = configured
effective_to_meshcore configured (some h) = effective_telegram_to_meshcore h

abbrev pub effective_confirmation : Bool → Option BridgeHealthState → Bool
effective_confirmation configured none = configured
effective_confirmation configured (some h) = effective_forward_confirmation h

module _ {H : Type 0} (env : Environment) (python : Externals) (service : TelegramService H) where
  -- `_meshcore_room`
  abbrev pub meshcore_room : RoomRef
  meshcore_room = record {
    transport = meshcore_transport_name;
    room_id =
        str_append meshcore_transport_name
          (str_append ":channel:" (python.string_of (python.decimal service.channel_index)));
    room_kind = "meshcore_channel";
  }

  abbrev pub rendered_update : Text → ForwardRenderResult
  rendered_update body =
      render_meshcore_forward_message body service.message_prefix service.max_bytes

  module _ (update : Received) (message : InboundMessage) (received : Option ℕ) where
    -- An event of the bridge about the text, caused by its reception.
    unfoldable pub audit_text : EventKind → Exec (Option ℕ)
    audit_text kind = audit_bridge env service.audit kind received (correlation_id message none)

    unfoldable pub record_text : Text → ℕ → String → Exec (Option TelegramBridgeRecord)
    record_text content size_bytes status =
        safe_create_bridge_record env (correlation_id message none) meshcore_transport_name
          meshcore_room.room_id (content_ref_hash python.hmac python.key_id python.decimal content)
          size_bytes status

    -- The decision, with a confirmation.
    unfoldable pub settle_and_confirm : String → String → Text → Exec TelegramUpdateDecision
    settle_and_confirm event_type reason body = do
      decision ← settle env event_type reason update (some "text")
      done ← send_forward_confirmation env body
      pure decision

    -- `_record_forward_failure`
    unfoldable pub record_forward_failure : Text → ℕ → Bool → String → Exec (Unit {0})
    unfolding audit_text record_text
    record_forward_failure body size_bytes truncated reason = do
      id ← audit_text (bridge_failed "telegram_to_meshcore" reason size_bytes truncated)
      stored ← record_text body size_bytes "failed"
      pure tt

    -- Where there is no transport, or where it refuses the text.
    unfoldable pub fail_text : Text → ℕ → Bool → String → Exec TelegramUpdateDecision
    unfolding record_forward_failure settle_and_confirm
    fail_text body size_bytes truncated reason w =
        (record_forward_failure body size_bytes truncated reason
            >> settle_and_confirm "telegram.update.ignored" "failed" meshcore_forward_failure_text)
          (on_health (record_tg_to_mc (env.clock w.reads) false "transport_error") w)

    -- the confirmation of a success, if it is on
    unfoldable pub confirm_success : Exec (Unit {0})
    confirm_success w =
        if effective_confirmation service.confirm w.health
        then send_forward_confirmation env meshcore_forward_success_text w
        else (ok tt, w)

    unfoldable pub count_success : Exec (Unit {0})
    count_success w = (ok tt, on_health (record_tg_to_mc (env.clock w.reads) true "") w)

    -- Behind a send that succeeds.
    unfoldable pub forwarded_text : Text → ℕ → Bool → Exec TelegramUpdateDecision
    unfolding audit_text record_text confirm_success count_success
    forwarded_text body size_bytes truncated = do
      id ← audit_text (bridge_forwarded "telegram_to_meshcore" size_bytes truncated)
      stored ← record_text body size_bytes "accepted_by_meshcore_transport"
      counted ← count_success
      decision ← settle env "telegram.update.accepted" "forwarded" update (some "text")
      confirmed ← confirm_success
      pure decision

    -- Behind `transport.send`: every `Exception` is a failure of the transport.
    unfoldable pub after_send_text :
        Text → ℕ → Bool → Result (Unit {0}) × World → Result TelegramUpdateDecision × World
    unfolding forwarded_text fail_text
    after_send_text body size_bytes truncated (ok _, w) = forwarded_text body size_bytes truncated w
    after_send_text body size_bytes truncated (raise e, w) =
        if is_exception e
        then fail_text body size_bytes truncated "transport_error" w
        else (raise e, w)

    unfoldable pub outbound_text : Text → OutboundMessage
    outbound_text body = record {
      destination = meshcore_room.room_id;
      channel_index = service.channel_index;
      body = body;
      reply_to = message.message_id;
      reply_target = some meshcore_room;
    }

    unfoldable pub send_text : Text → ℕ → Bool → Exec TelegramUpdateDecision
    unfolding after_send_text outbound_text
    send_text body size_bytes truncated w =
        if service.has_transport
        then after_send_text body size_bytes truncated (send env (outbound_text body) w)
        else fail_text body size_bytes truncated "transport_unavailable" w

    -- `forwarding_rate_limiter.allow`
    unfoldable pub admit_text : Exec Bool
    admit_text w =
        let key = str_append telegram_sender_id (str_append ":" telegram_room_id) in
        let (limiter, allowed) = allow w.outbound_limiter key (env.clock w.reads) in
        (ok allowed, record w { outbound_limiter = limiter })

    unfoldable pub limit_text : Text → ℕ → Bool → Exec TelegramUpdateDecision
    unfolding send_text admit_text
    limit_text body size_bytes truncated = do
      allowed ← admit_text
      if allowed then send_text body size_bytes truncated else do
        id ← audit_text (bridge_ignored "telegram_to_meshcore" "rate_limited" size_bytes truncated)
        stored ← record_text body size_bytes "dropped"
        settle_and_confirm "telegram.update.ignored" "rate_limited" (codes "Rate limit.")

    unfoldable pub forward_update : Option Text → Bool → Exec TelegramUpdateDecision
    unfolding limit_text
    forward_update none truncated = do
      id ← audit_text (bridge_ignored "telegram_to_meshcore" "dropped" 0 truncated)
      stored ← record_text [] 0 "dropped"
      settle env "telegram.update.ignored" "dropped" update (some "text")
    forward_update (some body) truncated = limit_text body (byte_len body) truncated

    abbrev pub size_of : Option Text → ℕ
    size_of none = 0
    size_of (some body) = byte_len body

    -- Behind the event of the reception.
    unfoldable pub forward_received : ForwardRenderResult → Exec TelegramUpdateDecision
    unfolding forward_update
    forward_received rendered w =
        (if effective_to_meshcore service.forward w.health
            then forward_update rendered.text rendered.truncated
            else do
              id ← audit_text (
                  bridge_ignored "telegram_to_meshcore" "forward_disabled" (size_of rendered.text)
                    rendered.truncated)
              settle_and_confirm "telegram.update.ignored" "forward_disabled"
                  (codes "Telegram -> MeshCore está desactivado."))
          w

  -- `_process_forward_update`
  unfoldable pub process_forward_update : Received → Text → Exec TelegramUpdateDecision
  unfolding forward_received
  process_forward_update update body = do
    message ← inbound_message env python service update (codes "[telegram-text]")
    received ←
        audit_bridge env service.audit
          (bridge_received "telegram_to_meshcore" (byte_len (service.message_prefix ++ strip body)))
          none (correlation_id message none)
    forward_received update message received (rendered_update body)
