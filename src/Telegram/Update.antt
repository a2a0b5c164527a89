-- ===== src/Telegram/Update.antt =====
-- telegram/service.py: what an update of the Telegram API is, and how it is classified.
pub mod Laws
use meshcore_control_bridge.Common.{
  ℕ, String, Bool, true, false, not, Option, none, some, [], if◌then◌else◌, str_eq, codes, ◌==◌,
}
use meshcore_control_bridge.Python.{value_error, Result, ok, raise}
use meshcore_control_bridge.Text.Utf8.{Text}
use meshcore_control_bridge.Text.Space.{is_empty, strip}
use meshcore_control_bridge.Dedup.{text_eq}

-- A decoded JSON value, whose numbers are integers: `negative n` is -(n + 1).
mutual
  pub data Json : Type 0 where
    null : Json
    boolean : Bool → Json
    number : ℕ → Json
    negative : ℕ → Json
    text : Text → Json
    sequence : Items → Json
    mapping : Fields → Json

  pub data Items : Type 0 where
    nil : Items
    item : Json → Items → Items

  pub data Fields : Type 0 where
    end : Fields
    field : String → Json → Fields → Fields

-- `mapping.get(key)`
unfoldable pub lookup : String → Fields → Option Json
lookup key end = none
lookup key (field k j fields) =
    let rest = lookup key fields in if str_eq k key then some j else rest

-- `_mapping`, of a value that may be missing
abbrev pub mapping_of : Option Json → Fields
mapping_of (some (mapping fields)) = fields
mapping_of _ = end

-- `_message`, and the same for an edited message
abbrev pub mapping_field : Option Json → Option Fields
mapping_field (some (mapping fields)) = some fields
mapping_field _ = none

-- `_update_id`, for the positive integers that Telegram documents as identifiers of updates. The
-- negative ones and the booleans, which the code takes as well, are refused here.
abbrev pub natural : Option Json → Result ℕ
natural (some (number n)) = ok n
natural _ = raise value_error

abbrev pub is_end : Fields → Bool
is_end end = true
is_end (field k j fields) = false

abbrev pub is_nil : Items → Bool
is_nil nil = true
is_nil (item j items) = false

-- `bool(value)`
abbrev pub is_truthy : Json → Bool
is_truthy null = false
is_truthy (boolean b) = b
is_truthy (number n) = not (n == 0)
is_truthy (negative n) = true
is_truthy (text s) = not (is_empty s)
is_truthy (sequence items) = not (is_nil items)
is_truthy (mapping fields) = not (is_end fields)

abbrev pub has_text : Fields → Bool
has_text message = elim (lookup "text" message) [ none ↦ false | some j ↦ true ]

-- The second part of most classifications.
abbrev pub shape : Fields → String
shape message = if has_text message then "text" else "unsupported"

-- The allowed chat and user of the configuration.
pub record Allowed : Type 0 where
  pub private_chat_id : Text
  pub user_id : Text

abbrev pub is_text_of : Option Text → Text → Bool
is_text_of none t = false
is_text_of (some s) t = text_eq s t

-- The end of `_classify`, behind the checks of the chat and the user.
abbrev pub text_reason : Option Json → String × String
text_reason none = ("multimedia_ignored", "unsupported")
text_reason (some null) = ("multimedia_ignored", "unsupported")
text_reason (some (text s)) =
    if is_empty (strip s) then ("empty_text", "text") else ("foundation_only", "text")
text_reason (some _) = ("empty_text", "text")

-- The decimal numeral of a number, and the printed form of a value that is no text, are parameters.
module _ (decimal : ℕ → Text) (printed : Json → Text) where
  -- `_id_text`, where a boolean counts as an integer
  abbrev pub id_text : Option Json → Option Text
  id_text (some (number n)) = some (decimal n)
  id_text (some (negative n)) = some (printed (negative n))
  id_text (some (boolean b)) = some (printed (boolean b))
  id_text (some (text s)) = some s
  id_text _ = none

  -- `str(chat.get("type", ""))`
  abbrev pub type_text : Option Json → Text
  type_text none = []
  type_text (some (text s)) = s
  type_text (some j) = printed j

  abbrev pub is_bot : Fields → Bool
  is_bot sender = elim (lookup "is_bot" sender) [ none ↦ false | some j ↦ is_truthy j ]

  -- the checks of `_classify` on a chat of the given type
  unfoldable pub classify_chat :
      Allowed → Text → Fields → Option Text → Option Text → String × String
  unfolding lookup text_eq
  classify_chat allowed chat_type message chat_id user_id =
      if text_eq chat_type (codes "group")
      then ("group_ignored", shape message)
      else if text_eq chat_type (codes "supergroup")
      then ("supergroup_ignored", shape message)
      else if text_eq chat_type (codes "channel")
      then ("channel_ignored", shape message)
      else if not (text_eq chat_type (codes "private"))
      then ("chat_not_authorized", shape message)
      else if not (is_text_of chat_id allowed.private_chat_id)
      then ("chat_not_authorized", shape message)
      else if is_bot (mapping_of (lookup "from" message))
      then ("bot_message", shape message)
      else if not (is_text_of user_id allowed.user_id)
      then ("user_not_authorized", shape message)
      else text_reason (lookup "text" message)

  -- `_classify`
  unfoldable pub classify : Allowed → Option Fields → Option Text → Option Text → String × String
  unfolding classify_chat
  classify allowed none chat_id user_id = ("multimedia_ignored", "unsupported")
  classify allowed (some message) chat_id user_id =
      classify_chat allowed (type_text (lookup "type" (mapping_of (lookup "chat" message)))) message
        chat_id user_id
