-- ===== src/Telegram/Service/Updates.antt =====
-- telegram/service.py: `TelegramFoundationService.process_update`.
use meshcore_control_bridge.Common.{ℕ, String, Option, none, some, if◌then◌else◌, str_eq}
use meshcore_control_bridge.Python.{Result, ok, raise}
use meshcore_control_bridge.Text.Utf8.{Text}
use meshcore_control_bridge.Text.Space.{strip}
use meshcore_control_bridge.Commands.Parser.{starts_with}
use meshcore_control_bridge.World.Exec.{Environment, Exec, ◌>>=◌, throw}
use meshcore_control_bridge.Telegram.Store.{refs}
use meshcore_control_bridge.Telegram.Update.{
  Json, Fields, end, text, lookup, mapping_of, mapping_field, natural, is_end, id_text, type_text,
  classify,
}
use meshcore_control_bridge.Telegram.Service.{
  Externals, TelegramService, TelegramUpdateDecision, Received, settle, seen_or_store_update,
}
use meshcore_control_bridge.Telegram.Service.Commands.{process_command_update}
use meshcore_control_bridge.Telegram.Service.Forwarding.{process_forward_update}

abbrev pub fields_of : Option Fields → Fields
fields_of none = end
fields_of (some message) = message

module _ {H : Type 0} (env : Environment) (python : Externals) (service : TelegramService H) where
  -- An update of which nothing is read.
  unfoldable pub received_edit : ℕ → Received
  received_edit update_id = record {
    update_id = update_id;
    refs = refs python.hmac python.key_id python.decimal update_id none none;
    chat_type = none;
  }

  abbrev pub chat_of : Option Fields → Fields
  chat_of message = mapping_of (lookup "chat" (fields_of message))

  abbrev pub chat_id_of : Option Fields → Option Text
  chat_id_of message = id_text python.decimal python.printed (lookup "id" (chat_of message))

  abbrev pub user_id_of : Option Fields → Option Text
  user_id_of message =
      id_text python.decimal python.printed
        (lookup "id" (mapping_of (lookup "from" (fields_of message))))

  unfoldable pub received_message : ℕ → Option Fields → Received
  received_message update_id message = record {
    update_id = update_id;
    refs =
        refs python.hmac python.key_id python.decimal update_id (chat_id_of message)
          (user_id_of message);
    chat_type =
        if is_end (chat_of message)
        then none
        else some (type_text python.decimal python.printed (lookup "type" (chat_of message)));
  }

  -- A text that was let through is a command or is forwarded.
  unfoldable pub process_text : Received → Text → Exec TelegramUpdateDecision
  process_text update body =
      if starts_with (strip body) service.command_prefix
      then process_command_update env python service update body
      else process_forward_update env python service update body

  abbrev pub settle_reason : Received → String × String → Exec TelegramUpdateDecision
  settle_reason update reason =
      settle env
        (if str_eq reason.0 "foundation_only"
          then "telegram.update.accepted"
          else "telegram.update.ignored")
        reason.0 update (some reason.1)

  unfoldable pub process_classified :
      Received → String × String → Option Json → Exec TelegramUpdateDecision
  unfolding process_text
  process_classified update reason (some (text body)) =
      if str_eq reason.0 "foundation_only"
      then process_text update body
      else settle_reason update reason
  process_classified update reason _ = settle_reason update reason

  -- Behind the deduplication.
  unfoldable pub process_fresh : Received → Option Fields → Exec TelegramUpdateDecision
  unfolding process_classified
  process_fresh update message =
      process_classified update
        (classify python.decimal python.printed service.allowed message (chat_id_of message)
          (user_id_of message))
        (lookup "text" (fields_of message))

  unfoldable pub process_once : Received → Exec TelegramUpdateDecision → Exec TelegramUpdateDecision
  process_once update process = do
    duplicate ← seen_or_store_update env python service update.update_id
    if duplicate then settle env "telegram.update.ignored" "duplicate" update none else process

  -- An edited message is ignored, whatever else the update brings.
  unfoldable pub process_branch : ℕ → Option Fields → Option Fields → Exec TelegramUpdateDecision
  unfolding process_once process_fresh received_edit received_message
  process_branch update_id (some edited) message = process_once (received_edit update_id) (
      settle env "telegram.update.ignored" "edited_message" (received_edit update_id)
        (some "edited"))
  process_branch update_id none message =
      process_once (received_message update_id message)
        (process_fresh (received_message update_id message) message)

  unfoldable pub process_numbered : ℕ → Fields → Exec TelegramUpdateDecision
  unfolding process_branch
  process_numbered update_id fields =
      process_branch update_id (mapping_field (lookup "edited_message" fields))
        (mapping_field (lookup "message" fields))

  abbrev pub numbered : Fields → Result ℕ → Exec TelegramUpdateDecision
  numbered fields (ok update_id) = process_numbered update_id fields
  numbered fields (raise e) = throw e

  -- `process_update`
  unfoldable pub process_update : Fields → Exec TelegramUpdateDecision
  unfolding process_numbered
  process_update fields = numbered fields (natural (lookup "update_id" fields))
