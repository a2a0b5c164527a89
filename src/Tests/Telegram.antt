-- ===== src/Tests/Telegram.antt =====
-- The Telegram side on updates.
use meshcore_control_bridge.Common.{
  ℕ, suc, ◌≤◌, ◌<◌, ◌≡◌, ◌≢◌, ◌⊎◌, ◌↔◌, ◌++◌, refl, inl, inr, arith, String, Bool, true, false,
  Option, none, some, List, [], ◌∷◌, codes, length,
}
use meshcore_control_bridge.Python.{http_error, Result, ok, raise}
use meshcore_control_bridge.Text.Utf8.{Text}
use meshcore_control_bridge.Text.Space.{strip, normalized_lines}
use meshcore_control_bridge.Commands.Parser.{starts_with}
use meshcore_control_bridge.World.Exec.{World, Environment, Exec}
use meshcore_control_bridge.World.Grows.{AtMostOne}
use meshcore_control_bridge.Telegram.Store.{TelegramTables, is_activated}
use meshcore_control_bridge.Telegram.Store.Offset.{
  last_update_id, persist_last_update_id, last_update_id-persist,
}
use meshcore_control_bridge.Telegram.Update.{
  Fields, end, field, number, text, mapping, lookup, Allowed, classify,
}
use meshcore_control_bridge.Telegram.Update.Laws.{IsAllowed, classify_iff}
use meshcore_control_bridge.Telegram.SafeText.{
  response_max_chars, cut_suffix, trim_telegram_response, safe_command_text,
}
use meshcore_control_bridge.Telegram.SafeText.Laws.{
  OneOf, arguments, trim_telegram_response_lem, safe_command_text_lem,
}
use meshcore_control_bridge.Telegram.Service.{Externals, TelegramService, seen_or_store_update}
use meshcore_control_bridge.Telegram.Service.Forwarding.{rendered_update}
use meshcore_control_bridge.Telegram.Service.Updates.{process_update}
use meshcore_control_bridge.Telegram.Service.Traffic.{is_on_of}
use meshcore_control_bridge.Telegram.Service.Sent.{IsBridged}
use meshcore_control_bridge.Telegram.Service.Answers.{IsCommanded}
use meshcore_control_bridge.Telegram.Service.Admitted.{IsAdmitted}
use meshcore_control_bridge.Telegram.Service.Effects.{process_update-handled, process_update-sent}
use meshcore_control_bridge.Telegram.Service.Refused.{process_update-refused}
use meshcore_control_bridge.Telegram.Service.Once.{seen, after_seen, seen_or_store_update_once}
use meshcore_control_bridge.Telegram.Service.Polling.{Backoff, initialize}
use meshcore_control_bridge.Telegram.Service.Polling.Activation.{initialize-is_activated}
use meshcore_control_bridge.Tests.Data.{router, env, plain, numeral, world}

abbrev python : Externals
python = record {
  hmac = plain;
  key_id = codes "k";
  decimal = numeral;
  printed = λ j. codes "value";
  lower = λ s. s;
  fresh = λ n. "corr:3";
  string_of = λ s. "reference";
}

abbrev allowed : Allowed
allowed = record { private_chat_id = codes "c"; user_id = codes "u" }

abbrev service : TelegramService Text
service = record {
  command_prefix = codes "!";
  message_prefix = codes "TG: ";
  max_bytes = 100;
  channel_index = 1;
  allowed = allowed;
  forward = true;
  confirm = true;
  audit = true;
  audit_flow = some true;
  router = some router;
  has_transport = true;
}

-- an update with a text from a chat of a type
abbrev message_in : Text → Text → Fields
message_in kind body =
    field "chat" (mapping (field "id" (text (codes "c")) (field "type" (text kind) end)))
      (field "from" (mapping (field "id" (text (codes "u")) end)) (field "text" (text body) end))

abbrev update_in : Text → Text → Fields
update_in kind body =
    field "update_id" (number 7) (field "message" (mapping (message_in kind body)) end)

abbrev greeting : Fields
greeting = update_in (codes "private") (codes "hello")

abbrev ping : Fields
ping = update_in (codes "private") (codes "!ping")

abbrev edited : Fields
edited =
    field "update_id" (number 7)
      (field "edited_message" (mapping (message_in (codes "private") (codes "!ping"))) end)

process_update-handled_example :
    AtMostOne
      (λ run.
        (body : Text) × IsAdmitted env python service ping body
        × (starts_with (strip body) service.command_prefix ≡ true)
        × IsCommanded env python service body run)
      world.handled
      (process_update env python service ping world).1.handled
process_update-handled_example =
    process_update-handled env python service (λ h m u args trail w. refl) ping world

process_update-sent_example :
    AtMostOne
      (λ outbound.
        (body : Text) × IsAdmitted env python service greeting body
        × (starts_with (strip body) service.command_prefix ≡ false)
        × IsBridged env python service
            (rendered_update env python service body).text
            (is_on_of service world)
            outbound)
      world.sent
      (process_update env python service greeting world).1.sent
process_update-sent_example =
    process_update-sent env python service (λ h m u args trail w. refl) greeting world

edited-refused : (body : Text) → IsAdmitted env python service edited body → ⊥
unfolding lookup
edited-refused body a = cc a.no_edit

process_update-refused_example :
    ((process_update env python service edited world).1.handled ≡ world.handled)
    × ((process_update env python service edited world).1.sent ≡ world.sent)
    × ((process_update env python service edited world).1.posted ≡ world.posted)
process_update-refused_example =
    process_update-refused env python service edited edited-refused world

fresh : (seen_or_store_update env python service 7 world).0 ≡ ok false
unfolding seen_or_store_update meshcore_control_bridge.World.Exec.guarded_sqlite
    meshcore_control_bridge.World.Exec.store_write meshcore_control_bridge.Storage.write_transaction
    meshcore_control_bridge.Storage.write_loop meshcore_control_bridge.Storage.attempt
    meshcore_control_bridge.Telegram.Store.store_update meshcore_control_bridge.Dedup.has_key
    meshcore_control_bridge.Telegram.Store.purge_updates
fresh = refl

seen_or_store_update_once_example :
    (seen_or_store_update env python service 7
      (after_seen env python service (8 ∷ []) (seen env python service 7 world))).0
    ≢ ok false
seen_or_store_update_once_example =
    seen_or_store_update_once env python service 7 (8 ∷ []) world fresh (λ n h. omega arith)

classify_iff_example :
    ((classify numeral
        (λ j. codes "value")
        allowed
        (some (message_in (codes "private") (codes "hello")))
        (some (codes "c"))
        (some (codes "u"))).0
      ≡ "foundation_only")
    ↔ IsAllowed numeral
        (λ j. codes "value")
        allowed
        (message_in (codes "private") (codes "hello"))
        (some (codes "c"))
        (some (codes "u"))
classify_iff_example =
    classify_iff numeral (λ j. codes "value") allowed (message_in (codes "private") (codes "hello"))
      (some (codes "c")) (some (codes "u"))

abbrev knows_bridge : Text → Bool
knows_bridge name = starts_with name (codes "bridge")

safe_command_text_lem_example :
    (safe_command_text plain (codes "!") knows_bridge (codes "!bridge tg2mc on")
      ≡ codes "!" ++ codes "unknown")
    ⊎ ((name arg : Text) × (knows_bridge name ≡ true)
        × OneOf arguments arg
        × (safe_command_text plain (codes "!") knows_bridge (codes "!bridge tg2mc on")
            ≡ codes "!" ++ name ++ arg))
safe_command_text_lem_example =
    safe_command_text_lem plain (codes "!") knows_bridge (codes "!bridge tg2mc on")

trim_telegram_response_lem_example :
    (length (trim_telegram_response (codes "pong")) ≤ response_max_chars)
    × ((trim_telegram_response (codes "pong") ≡ normalized_lines (codes "pong"))
        ⊎ ((response_max_chars < length (normalized_lines (codes "pong")))
            × (kept : Text) × (trim_telegram_response (codes "pong") ≡ kept ++ cut_suffix)))
trim_telegram_response_lem_example = trim_telegram_response_lem (codes "pong")

abbrev first_code : Text → Result ℕ
first_code [] = ok 0
first_code (c ∷ s) = ok c

last_update_id-persist_example :
    (last_update_id first_code (persist_last_update_id numeral 7 world.telegram).1 ≡ ok (some 7))
    × (is_activated (persist_last_update_id numeral 7 world.telegram).1
        ≡ is_activated world.telegram)
last_update_id-persist_example = last_update_id-persist numeral first_code 7 world.telegram refl

abbrev backoff : Backoff
backoff = record { initial = 1; maximum = 30 }

abbrev failing : Exec Bool
failing w = (raise http_error, record w { reads = suc w.reads })

initialized : (initialize env world).0 ≡ ok tt
unfolding initialize is_activated meshcore_control_bridge.Common.Dict.get
    meshcore_control_bridge.World.Exec.◌>>=◌ meshcore_control_bridge.World.Exec.store_write
    meshcore_control_bridge.Storage.write_transaction meshcore_control_bridge.Storage.write_loop
    meshcore_control_bridge.Storage.attempt meshcore_control_bridge.Telegram.Store.mark_activated
initialized = refl

initialize-is_activated_example : is_activated (initialize env world).1.telegram ≡ true
initialize-is_activated_example = initialize-is_activated env world initialized
