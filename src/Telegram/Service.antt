-- ===== src/Telegram/Service.antt =====
-- telegram/service.py: `TelegramFoundationService`, what its handlers of updates share.
pub mod Commands
pub mod Forwarding
pub mod Updates
pub mod Outside
pub mod Traffic
pub mod Sent
pub mod Admitted
pub mod Answers
pub mod Effects
pub mod Once
pub mod Refused
pub mod Polling
use Prim.Native.String.{◌++◌ as str_append}
use meshcore_control_bridge.Common.{
  ℕ, suc, ◌+◌, String, Bool, true, false, Option, none, some, List, [], ◌∷◌, if◌then◌else◌,
}
use meshcore_control_bridge.Python.{
  Exn, runtime_error, Result, ok, raise, is_sqlite_error, is_transport_error,
}
use meshcore_control_bridge.Text.Utf8.{Text}
use meshcore_control_bridge.Models.{text, RoomRef, SenderIdentity, InboundMessage}
use meshcore_control_bridge.Commands.Router.{Router}
use meshcore_control_bridge.World.Events.{AuditTrail}
use meshcore_control_bridge.World.Exec.{
  World, Environment, Exec, ◌>>=◌, pure, store_write, post, guarded_sqlite,
}
use meshcore_control_bridge.Audit.{degraded_trail, received}
use meshcore_control_bridge.Telegram.Store.{
  TelegramAuditRefs, audit_event, store_update, update_ref_hash,
}
use meshcore_control_bridge.Telegram.Update.{Json, Allowed}
use meshcore_control_bridge.Telegram.Forwarder.{
  degrade_audit, degrade_telegram, telegram_transport, telegram_room_id,
}

abbrev pub telegram_sender_id : String
telegram_sender_id = "telegram-user:default:authorized"

-- `telegram_room` and `telegram_sender` of telegram/identity.py
abbrev pub telegram_room : RoomRef
telegram_room = record {
  transport = telegram_transport;
  room_id = telegram_room_id;
  room_kind = "telegram_chat";
}

abbrev pub telegram_sender : SenderIdentity
telegram_sender = record {
  sender_id = telegram_sender_id;
  transport_scope = telegram_transport;
  identity_kind = "telegram_user_id";
  stable = true;
}

-- What the code takes from Python: the keyed hash with the identifier of its key, numerals, the
-- printed form of a JSON value that is no text, `str.lower`, fresh correlation ids by the number of
-- the reading, and a text as a native string.
pub record Externals : Type 0 where
  pub hmac : Text → Text
  pub key_id : Text
  pub decimal : ℕ → Text
  pub printed : Json → Text
  pub lower : Text → Text
  pub fresh : ℕ → String
  pub string_of : Text → String

-- The service with its configuration. `audit` says that there is an enabled repository for bridge
-- events, and `audit_flow` whether there is an `AuditFlow` and whether it records events.
pub record TelegramService (H : Type 0) : Type 0 where
  pub command_prefix : Text
  pub message_prefix : Text
  pub max_bytes : ℕ
  pub channel_index : ℕ
  pub allowed : Allowed
  pub forward : Bool
  pub confirm : Bool
  pub audit : Bool
  pub audit_flow : Option Bool
  pub router : Option (Router H)
  pub has_transport : Bool

-- `TelegramUpdateDecision`
pub record TelegramUpdateDecision : Type 0 where
  pub update_id : ℕ
  pub reason : String
  pub chat_type : Option Text
  pub message_type : Option String

-- An update under way: its identifier, references and the type of its chat.
pub record Received : Type 0 where
  pub update_id : ℕ
  pub refs : TelegramAuditRefs
  pub chat_type : Option Text

abbrev pub decide : Received → String → Option String → TelegramUpdateDecision
decide update reason message_type = record {
  update_id = update.update_id;
  reason = reason;
  chat_type = update.chat_type;
  message_type = message_type;
}

-- the first `except` clauses of `_message_received`: faults of SQLite, then `RuntimeError`
abbrev pub recover_received :
    {A : Type 0} → Environment → Exec A → Result A × World → Result A × World
recover_received env fallback (ok a, w) = (ok a, w)
recover_received env fallback (raise runtime_error, w) = fallback w
recover_received env fallback (raise e, w) =
    if is_sqlite_error e then fallback (degrade_audit env e w) else (raise e, w)

-- A fault of the transport to Telegram is logged and passes.
abbrev pub forgive_transport : Result (Unit {0}) × World → Result (Unit {0}) × World
forgive_transport (ok u, w) = (ok u, w)
forgive_transport (raise e, w) = if is_transport_error e then (ok tt, w) else (raise e, w)

-- `_audit`
unfoldable pub audit_update :
    Environment → String → String → Received → Option String → Exec (Unit {0})
audit_update env event_type reason update message_type = guarded_sqlite (degrade_telegram env) tt (
    store_write env λ now id. audit_event (record {
      event_type = event_type;
      refs = update.refs;
      chat_type = update.chat_type;
      message_type = message_type;
      reason = reason;
    }))

-- an update is audited, and that is all
unfoldable pub settle :
    Environment → String → String → Received → Option String → Exec TelegramUpdateDecision
unfolding audit_update
settle env event_type reason update message_type = do
  done ← audit_update env event_type reason update message_type
  pure (decide update reason message_type)

-- `_send_forward_confirmation`. The sleep after a rate limit is no step of the state.
unfoldable pub send_forward_confirmation : Environment → Text → Exec (Unit {0})
send_forward_confirmation env body w = forgive_transport (post env body w)

module _ {H : Type 0} (env : Environment) (python : Externals) (service : TelegramService H) where
  -- `_seen_or_store_update`: a fault of SQLite counts as a duplicate.
  unfoldable pub seen_or_store_update : ℕ → Exec Bool
  seen_or_store_update update_id = guarded_sqlite (degrade_telegram env) true (
      store_write env λ now id.
        store_update now (update_ref_hash python.hmac python.key_id python.decimal update_id))

  -- `refs.update_ref_hash or f"telegram-update:{update_id}"`
  abbrev pub platform_message_id : ℕ → Option Text → String
  platform_message_id update_id (some (c ∷ s)) = python.string_of (c ∷ s)
  platform_message_id update_id _ =
      str_append "telegram-update:" (python.string_of (python.decimal update_id))

  -- `_inbound_message`
  unfoldable pub inbound_message : Received → Text → Exec InboundMessage
  inbound_message update body w = (
    ok (record {
      transport = telegram_transport;
      message_id = some (platform_message_id update.update_id update.refs.update_ref_hash);
      sender_id = telegram_sender_id;
      channel_index = service.channel_index;
      body = body;
      received_at = env.clock w.reads;
      metadata = ("message_type", text "text") ∷ ("chat_type", text "private") ∷ [];
      source_room = some telegram_room;
      reply_target = some telegram_room;
      sender = some telegram_sender;
      message = some (record {
        message_id = some (platform_message_id update.update_id update.refs.update_ref_hash);
        id_kind = "platform";
        correlation_id = python.fresh w.reads;
      });
    }),
    record w { reads = suc w.reads },
  )

  abbrev pub some_trail : Result AuditTrail × World → Result (Option AuditTrail) × World
  some_trail (ok trail, w) = (ok (some trail), w)
  some_trail (raise e, w) = (raise e, w)

  -- `_message_received`
  unfoldable pub message_received : InboundMessage → Exec (Option AuditTrail)
  message_received message w = elim service.audit_flow [
    | none ↦ (ok none, w)
    | some enabled ↦
        some_trail (
          recover_received env (degraded_trail env enabled message)
            (received env enabled message w))
  ]
