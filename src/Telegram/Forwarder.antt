-- ===== src/Telegram/Forwarder.antt =====
-- telegram/service.py: `MeshCoreToTelegramForwarder`, from a text on the channel to the chat.
pub mod Posts
pub mod Quiet
pub mod Asked
use Prim.Native.String.{◌++◌ as str_append}
use meshcore_control_bridge.Common.{
  ℕ, String, Bool, true, false, ◌||◌, Option, none, some, [], if◌then◌else◌, str_eq,
}
use meshcore_control_bridge.Common.Dict.{get}
use meshcore_control_bridge.Python.{
  Exn, sqlite_locked, telegram_rate_limit_error, telegram_conflict_error, Result, ok, raise,
  is_transport_error,
}
use meshcore_control_bridge.Text.Utf8.{Text, byte_len}
use meshcore_control_bridge.Text.Space.{normalized_bridge_text}
use meshcore_control_bridge.Models.{Value, boolean, text, InboundMessage}
use meshcore_control_bridge.Auth.{sender_of}
use meshcore_control_bridge.RateLimit.{allow}
use meshcore_control_bridge.Health.State.{BridgeHealthState, effective_meshcore_to_telegram}
use meshcore_control_bridge.Health.Ops.{
  set_audit_db_health, set_telegram_db_health, record_mc_to_tg,
}
use meshcore_control_bridge.World.Events.{
  AuditTrail, EventKind, bridge_received, bridge_ignored, bridge_failed, bridge_forwarded,
}
use meshcore_control_bridge.World.Exec.{
  World, Environment, Exec, ◌>>=◌, pure, record_event, store_write, post, on_health, guarded_sqlite,
}
use meshcore_control_bridge.Telegram.Store.{
  TelegramBridgeRecord, create_bridge_record, consume_pending_echo, bridge_pending_window_seconds,
}
use meshcore_control_bridge.Telegram.Render.{ForwardRenderResult, render_telegram_forward_message}

abbrev pub meshcore_transport_name : String
meshcore_transport_name = "homeassistant-meshcore"

abbrev pub telegram_transport : String
telegram_transport = "telegram"

abbrev pub telegram_room_id : String
telegram_room_id = "telegram:private:authorized"

abbrev pub sqlite_reason : Exn → String
sqlite_reason sqlite_locked = "database_locked"
sqlite_reason _ = "storage_error"

-- The handlers of `except sqlite3.Error`.
unfoldable pub degrade_audit : Environment → Exn → World → World
degrade_audit env e w =
    on_health (set_audit_db_health (env.clock w.reads) "degraded" (some (sqlite_reason e))) w

unfoldable pub degrade_telegram : Environment → Exn → World → World
degrade_telegram env e w =
    on_health (set_telegram_db_health (env.clock w.reads) "degraded" (some (sqlite_reason e))) w

-- `_correlation_id`
unfoldable pub correlation_id : InboundMessage → Option AuditTrail → String
correlation_id message (some trail) = trail.correlation_id
correlation_id message none = elim message.message [
  | none ↦ ""
  | some identity ↦ identity.correlation_id
]

-- `_is_self_sent_meshcore`; `lower` is `str.lower` on the metadata's texts.
abbrev pub is_true : Option Value → Bool
is_true (some (boolean b)) = b
is_true _ = false

abbrev pub is_outgoing : (String → String) → Option Value → Bool
is_outgoing lower (some (text s)) =
    str_eq (lower s) "outgoing" || str_eq (lower s) "sent" || str_eq (lower s) "tx"
is_outgoing lower _ = false

abbrev pub is_text : String → Option Value → Bool
is_text s (some (text t)) = str_eq t s
is_text s _ = false

unfoldable pub is_self_sent_meshcore : (String → String) → InboundMessage → Bool
is_self_sent_meshcore lower message =
    is_true (get "outgoing" message.metadata)
    || is_true (get "self_sent" message.metadata)
    || is_outgoing lower (get "direction" message.metadata)
    || is_text telegram_transport (get "source_transport" message.metadata)

-- `_audit_bridge`, where `enabled` says that there is a repository and that it is enabled
unfoldable pub audit_bridge : Environment → Bool → EventKind → Option ℕ → String → Exec (Option ℕ)
audit_bridge env enabled kind causation correlation =
    if enabled
    then guarded_sqlite (degrade_audit env) none
        (do id ← record_event env kind causation correlation; pure (some id))
    else pure none

-- `_safe_create_bridge_record`
unfoldable pub safe_create_bridge_record :
    Environment → String → String → String → Text → ℕ → String → Exec (Option TelegramBridgeRecord)
safe_create_bridge_record env correlation transport room_id content_ref size_bytes status =
    guarded_sqlite (degrade_telegram env) none (do
      stored ← store_write env λ now id.
          create_bridge_record bridge_pending_window_seconds (record {
            bridge_message_id = id;
            correlation_id = correlation;
            destination_transport = transport;
            destination_room_id = room_id;
            content_ref_hash = content_ref;
            size_bytes = size_bytes;
            status = status;
            created_at = now;
            expires_at = now;
          })
      pure (some stored))

-- The configuration of the forwarder; `content_ref` is `TelegramStore.content_ref_hash`.
pub record Forwarding : Type 0 where
  pub prefix : Text
  pub max_bytes : ℕ
  pub forward : Bool
  pub audit : Bool
  pub content_ref : Text → Text
  pub decimal : ℕ → String
  pub lower : String → String

abbrev pub effective_forward : Bool → Option BridgeHealthState → Bool
effective_forward configured none = configured
effective_forward configured (some h) = effective_meshcore_to_telegram h

module _ (env : Environment) (config : Forwarding) where
  -- `_meshcore_forward_rate_key`
  unfoldable pub rate_key : InboundMessage → String
  rate_key message =
      let room_id : String = elim message.source_room [
        | none ↦ str_append "channel:" (config.decimal message.channel_index)
        | some room ↦ room.room_id
      ] in
      str_append room_id (str_append ":" (sender_of message))

  abbrev pub meshcore_room_id : ℕ → String
  meshcore_room_id channel_index =
      str_append meshcore_transport_name (str_append ":channel:" (config.decimal channel_index))

  -- `_consume_pending_echo`: a fault of SQLite counts as an echo.
  unfoldable pub is_echo : InboundMessage → Text → ℕ → Exec Bool
  is_echo message body size_bytes = guarded_sqlite (degrade_telegram env) true (do
    let room_id : String = elim message.source_room [
      | none ↦ meshcore_room_id message.channel_index
      | some room ↦ room.room_id
    ]
    found ← store_write env λ now id.
        consume_pending_echo
          (record {
            transport = meshcore_transport_name;
            room_id = room_id;
            content_ref = config.content_ref body;
            size = size_bytes;
          })
          now
    pure (elim found [ none ↦ false | some r ↦ true ]))

  module _ (message : InboundMessage) (trail : Option AuditTrail) (received : Option ℕ) where
    unfoldable pub ignore : String → ℕ → Bool → Exec Bool
    ignore reason size_bytes truncated = do
      id ←
          audit_bridge env config.audit
            (bridge_ignored "meshcore_to_telegram" reason size_bytes truncated) received
            (correlation_id message trail)
      pure true

    unfoldable pub keep_record : Text → ℕ → String → Exec (Option TelegramBridgeRecord)
    keep_record content size_bytes status =
        safe_create_bridge_record env (correlation_id message trail) telegram_transport
          telegram_room_id (config.content_ref content) size_bytes status

    -- `_record_failed`, behind the failure in the health
    unfoldable pub record_failed : Text → ℕ → Bool → String → Exec Bool
    record_failed body size_bytes truncated reason = do
      id ←
          audit_bridge env config.audit
            (bridge_failed "meshcore_to_telegram" reason size_bytes truncated) received
            (correlation_id message trail)
      stored ← keep_record body size_bytes "failed"
      pure true

    unfoldable pub fail : Text → ℕ → Bool → String → Exec Bool
    unfolding record_failed
    fail body size_bytes truncated reason w =
        record_failed body size_bytes truncated reason
          (on_health (record_mc_to_tg (env.clock w.reads) false reason) w)

    unfoldable pub forwarded : Text → ℕ → Bool → Exec Bool
    forwarded body size_bytes truncated = do
      id ←
          audit_bridge env config.audit
            (bridge_forwarded "meshcore_to_telegram" size_bytes truncated) received
            (correlation_id message trail)
      stored ← keep_record body size_bytes "accepted_by_telegram"
      λ w. (ok true, on_health (record_mc_to_tg (env.clock w.reads) true "") w)

    -- Behind `client.send_message`, with the clauses of the `try` in their order.
    unfoldable pub after_post : Text → ℕ → Bool → Result (Unit {0}) × World → Result Bool × World
    unfolding forwarded fail
    after_post body size_bytes truncated (ok _, w) = forwarded body size_bytes truncated w
    after_post body size_bytes truncated (raise (telegram_rate_limit_error n), w) =
        fail body size_bytes truncated "rate_limited" w
    after_post body size_bytes truncated (raise telegram_conflict_error, w) =
        fail body size_bytes truncated "consumer_conflict" w
    after_post body size_bytes truncated (raise e, w) =
        if is_transport_error e
        then fail body size_bytes truncated "transport_error" w
        else (raise e, w)

    unfoldable pub admit : Exec Bool
    admit w =
        let (limiter, allowed) = allow w.inbound_limiter (rate_key message) (env.clock w.reads) in
        (ok allowed, record w { inbound_limiter = limiter })

    unfoldable pub post_rendered : Text → ℕ → Bool → Exec Bool
    unfolding after_post
    post_rendered body size_bytes truncated w =
        after_post body size_bytes truncated (post env body w)

    -- Behind the echo check.
    unfoldable pub limit_rendered : Text → ℕ → Bool → Exec Bool
    unfolding post_rendered admit ignore
    limit_rendered body size_bytes truncated = do
      allowed ← admit
      if allowed then post_rendered body size_bytes truncated else do
        done ← ignore "rate_limited" size_bytes truncated
        stored ← keep_record body size_bytes "dropped"
        pure true

    unfoldable pub forward_rendered : Option Text → Bool → Exec Bool
    unfolding is_echo limit_rendered ignore
    forward_rendered none truncated = do
      done ← ignore "dropped" 0 truncated
      stored ← keep_record [] 0 "dropped"
      pure true
    forward_rendered (some body) truncated = do
      let source = normalized_bridge_text message.body
      echo ← is_echo message source (byte_len source)
      if echo
          then ignore "loop_prevention" (byte_len body) truncated
          else limit_rendered body (byte_len body) truncated

  abbrev pub rendered_size : Option Text → ℕ
  rendered_size none = 0
  rendered_size (some body) = byte_len body

  abbrev pub rendered_message : InboundMessage → ForwardRenderResult
  rendered_message message =
      render_telegram_forward_message message.body config.prefix config.max_bytes

  unfoldable pub forward_checked : InboundMessage → Option AuditTrail → Option ℕ → Exec Bool
  unfolding forward_rendered
  forward_checked message trail received w =
      let rendered = rendered_message message in
      if effective_forward config.forward w.health
      then if is_self_sent_meshcore config.lower message
        then ignore message trail received "loop_prevention" (rendered_size rendered.text)
            rendered.truncated w
        else forward_rendered message trail received rendered.text rendered.truncated w
      else ignore message trail received "forward_disabled" (rendered_size rendered.text)
          rendered.truncated w

  unfoldable pub forward_normal_text : InboundMessage → Option AuditTrail → Exec Bool
  unfolding forward_checked
  forward_normal_text message trail = do
    received ←
        audit_bridge env config.audit
          (bridge_received "meshcore_to_telegram" (byte_len (normalized_bridge_text message.body)))
          (elim trail [ none ↦ none | some t ↦ t.latest_event_id ]) (correlation_id message trail)
    forward_checked message trail received
