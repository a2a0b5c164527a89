-- ===== src/Telegram/Store.antt =====
-- telegram/store.py: the tables of the Telegram side, and the operations on them.
pub mod Echoes
pub mod Offset
pub mod Updates
use meshcore_control_bridge.Common.{
  ℕ, ◌+◌, String, Bool, true, false, not, ◌&&◌, ◌||◌, Option, none, some, List, [], ◌∷◌, ◌++◌, ltb,
  leb, ◌==◌, if◌then◌else◌, str_eq, codes,
}
use meshcore_control_bridge.Common.Dict.{Dict, get, put}
use meshcore_control_bridge.Python.{value_error, integrity_error, Result, ok, raise}
use meshcore_control_bridge.Text.Utf8.{Text}
use meshcore_control_bridge.Dedup.{Row, text_eq, has_key}

abbrev pub update_window_seconds : ℕ
update_window_seconds = 3600

abbrev pub bridge_pending_window_seconds : ℕ
bridge_pending_window_seconds = 600

abbrev pub telegram_reasons : List String
telegram_reasons =
    "accepted" ∷ "bot_message" ∷ "chat_not_authorized" ∷ "duplicate" ∷ "edited_message"
    ∷ "empty_text" ∷ "foundation_only" ∷ "group_ignored" ∷ "multimedia_ignored"
    ∷ "supergroup_ignored" ∷ "channel_ignored" ∷ "command" ∷ "forwarded" ∷ "forward_disabled"
    ∷ "rate_limited" ∷ "dropped" ∷ "failed" ∷ "user_not_authorized" ∷ []

abbrev pub bridge_statuses : List String
bridge_statuses =
    "accepted_by_meshcore_transport" ∷ "accepted_by_telegram" ∷ "observed_echo" ∷ "failed"
    ∷ "dropped" ∷ []

abbrev pub is_listed : String → List String → Bool
is_listed s [] = false
is_listed s (r ∷ rs) = str_eq s r || is_listed s rs

pub record TelegramAuditRefs : Type 0 where
  pub update_ref_hash : Option Text
  pub chat_ref_hash : Option Text
  pub user_ref_hash : Option Text

-- A row of `telegram_audit_events`.
pub record TelegramAuditEvent : Type 0 where
  pub event_type : String
  pub refs : TelegramAuditRefs
  pub chat_type : Option Text
  pub message_type : Option String
  pub reason : String

-- A row of `telegram_bridge_pending`.
pub record TelegramBridgeRecord : Type 0 where
  pub bridge_message_id : ℕ
  pub correlation_id : String
  pub destination_transport : String
  pub destination_room_id : String
  pub content_ref_hash : Text
  pub size_bytes : ℕ
  pub status : String
  pub created_at : ℕ
  pub expires_at : ℕ

pub record TelegramTables : Type 0 where
  pub state : Dict Text
  pub updates : List Row
  pub audit_events : List TelegramAuditEvent
  pub pending : List TelegramBridgeRecord

-- `is_activated` and `mark_activated`
unfoldable pub is_activated : TelegramTables → Bool
is_activated t = elim (get "activated" t.state) [
  | none ↦ false
  | some value ↦ text_eq value (codes "1")
]

-- the transaction of `_set_state`
unfoldable pub set_state : String → Text → TelegramTables → Result (Unit {0}) × TelegramTables
set_state key value t = (ok tt, record t { state = put key value t.state })

unfoldable pub mark_activated : TelegramTables → Result (Unit {0}) × TelegramTables
unfolding set_state
mark_activated t = set_state "activated" (codes "1") t

-- `DELETE FROM telegram_update_deduplication WHERE expires_at <= now`
unfoldable pub purge_updates : ℕ → List Row → List Row
purge_updates now [] = []
purge_updates now (r ∷ rows) =
    let rest = purge_updates now rows in if leb r.expires_at now then rest else r ∷ rest

-- `DELETE FROM telegram_bridge_pending WHERE expires_at <= now`
unfoldable pub purge_pending : ℕ → List TelegramBridgeRecord → List TelegramBridgeRecord
purge_pending now [] = []
purge_pending now (r ∷ rows) =
    let rest = purge_pending now rows in if leb r.expires_at now then rest else r ∷ rest

-- The transaction of `seen_or_store_update`: the primary key refuses a second row of a reference.
unfoldable pub store_update : ℕ → Text → TelegramTables → Result Bool × TelegramTables
store_update now update_ref t =
    let live = purge_updates now t.updates in
    if has_key update_ref live then (ok true, record t { updates = live }) else (
      ok false,
      record t {
        updates =
            record { dedup_key = update_ref; expires_at = now + update_window_seconds } ∷ live;
      },
    )

-- `audit_event`; the reason is checked before the transaction begins.
unfoldable pub audit_event :
    TelegramAuditEvent → TelegramTables → Result (Unit {0}) × TelegramTables
audit_event event t =
    if not (is_listed event.reason telegram_reasons)
    then (raise value_error, t)
    else (ok tt, record t { audit_events = t.audit_events ++ event ∷ [] })

unfoldable pub has_id : ℕ → List TelegramBridgeRecord → Bool
has_id id [] = false
has_id id (r ∷ rows) = (r.bridge_message_id == id) || has_id id rows

-- `create_bridge_record`: the record is complete but for its expiry, which the row gets. The status
-- is checked before the transaction begins.
unfoldable pub create_bridge_record :
    ℕ → TelegramBridgeRecord → TelegramTables → Result TelegramBridgeRecord × TelegramTables
create_bridge_record ttl_seconds fresh t =
    if not (is_listed fresh.status bridge_statuses)
    then (raise value_error, t)
    else (let live = purge_pending fresh.created_at t.pending in
        let stored : TelegramBridgeRecord = record fresh {
          expires_at = fresh.created_at + ttl_seconds;
        } in
        if has_id fresh.bridge_message_id live
        then (raise integrity_error, record t { pending = live })
        else (ok stored, record t { pending = live ++ stored ∷ [] }))

-- The `WHERE` of `consume_pending_echo`.
pub record Echo : Type 0 where
  pub transport : String
  pub room_id : String
  pub content_ref : Text
  pub size : ℕ

unfoldable pub matches : Echo → ℕ → TelegramBridgeRecord → Bool
matches echo now r =
    str_eq r.destination_transport echo.transport
    && str_eq r.destination_room_id echo.room_id
    && text_eq r.content_ref_hash echo.content_ref
    && (r.size_bytes == echo.size)
    && str_eq r.status "accepted_by_meshcore_transport"
    && ltb now r.expires_at

-- `ORDER BY created_at LIMIT 1`, the first stored of those with an equal time
abbrev pub earlier :
    TelegramBridgeRecord → Option TelegramBridgeRecord → Option TelegramBridgeRecord
earlier r none = some r
earlier r (some s) = if ltb s.created_at r.created_at then some s else some r

unfoldable pub earliest : Echo → ℕ → List TelegramBridgeRecord → Option TelegramBridgeRecord
unfolding matches
earliest echo now [] = none
earliest echo now (r ∷ rows) =
    let rest = earliest echo now rows in if matches echo now r then earlier r rest else rest

abbrev pub observed : TelegramBridgeRecord → TelegramBridgeRecord
observed r = record r { status = "observed_echo" }

-- `UPDATE … SET status = 'observed_echo' WHERE bridge_message_id = id`
unfoldable pub observe : ℕ → List TelegramBridgeRecord → List TelegramBridgeRecord
observe id [] = []
observe id (r ∷ rows) =
    let rest = observe id rows in (if r.bridge_message_id == id then observed r else r) ∷ rest

abbrev pub consumed :
    Option TelegramBridgeRecord
    → List TelegramBridgeRecord
    → TelegramTables
    → Result (Option TelegramBridgeRecord) × TelegramTables
consumed none live t = (ok none, record t { pending = live })
consumed (some r) live t =
    (ok (some (observed r)), record t { pending = observe r.bridge_message_id live })

-- `consume_pending_echo`
unfoldable pub consume_pending_echo :
    Echo → ℕ → TelegramTables → Result (Option TelegramBridgeRecord) × TelegramTables
unfolding purge_pending earliest observe
consume_pending_echo echo now t =
    let live = purge_pending now t.pending in consumed (earliest echo now live) live t

-- The keyed hash of a reference is a parameter: HMAC-SHA-256 under the key of the audit.
module _ (hmac : Text → Text) (key_id : Text) (decimal : ℕ → Text) where
  unfoldable pub reference : Text → Text
  reference material = codes "hmac-sha256:v1:" ++ key_id ++ codes ":" ++ hmac material

  unfoldable pub update_ref_hash : ℕ → Text
  update_ref_hash update_id = reference (codes "telegram-update:v1" ++ 0 ∷ decimal update_id)

  unfoldable pub chat_ref_hash : Text → Text
  chat_ref_hash chat_id = reference (codes "telegram-chat:v1" ++ 0 ∷ chat_id)

  unfoldable pub user_ref_hash : Text → Text
  user_ref_hash user_id = reference (codes "telegram-user:v1" ++ 0 ∷ user_id)

  unfoldable pub content_ref_hash : Text → Text
  content_ref_hash content = reference (codes "bridge-content:v1" ++ 0 ∷ content)

  -- an identity that is missing or empty has no reference
  abbrev pub given : (Text → Text) → Option Text → Option Text
  given hash none = none
  given hash (some []) = none
  given hash (some (c ∷ s)) = some (hash (c ∷ s))

  unfoldable pub refs : ℕ → Option Text → Option Text → TelegramAuditRefs
  refs update_id chat_id user_id = record {
    update_ref_hash = some (update_ref_hash update_id);
    chat_ref_hash = given chat_ref_hash chat_id;
    user_ref_hash = given user_ref_hash user_id;
  }
