-- ===== src/Telegram/SafeText.antt =====
-- telegram/service.py: what is kept of the text of a command, and how its answer is cut.
pub mod Laws
use meshcore_control_bridge.Common.{
  ℕ, ◌-◌, Bool, true, false, ◌&&◌, ◌||◌, not, Option, none, some, List, [], ◌∷◌, ◌++◌, ltb, leb,
  if◌then◌else◌, codes, length, take, drop,
}
use meshcore_control_bridge.Text.Utf8.{Text}
use meshcore_control_bridge.Text.Space.{is_empty, strip, rstrip, split, normalized_lines}
use meshcore_control_bridge.Dedup.{text_eq}
use meshcore_control_bridge.Commands.Parser.{starts_with}

abbrev pub response_max_chars : ℕ
response_max_chars = 3900

abbrev pub cut_suffix : Text
cut_suffix = 10 ∷ codes "... truncado"

-- `_trim_telegram_response`
unfoldable pub trim_telegram_response : Text → Text
trim_telegram_response body =
    let normalized = normalized_lines body in
    if leb (length normalized) response_max_chars
    then normalized
    else rstrip (take (response_max_chars - 14) normalized) ++ cut_suffix

-- `str.removeprefix`
unfoldable pub remove_prefix : Text → Text → Text
remove_prefix prefix s = if starts_with s prefix then drop (length prefix) s else s

-- The first word, which a text that is not blank has.
abbrev pub first_word : List Text → Text
first_word [] = []
first_word (word ∷ words) = word

abbrev pub is_listed : Text → List Text → Bool
is_listed s [] = false
is_listed s (t ∷ ts) = text_eq s t || is_listed s ts

abbrev pub bridge_targets : List Text
bridge_targets = codes "tg2mc" ∷ codes "mc2tg" ∷ codes "confirm" ∷ []

abbrev pub bridge_values : List Text
bridge_values = codes "on" ∷ codes "off" ∷ []

module _ (lower : Text → Text) (prefix : Text) where
  -- `_safe_bridge_command_text`, by the words of the text
  abbrev pub safe_bridge_words : List Text → Text
  safe_bridge_words (word ∷ a ∷ []) =
      if text_eq (lower a) (codes "reset") then codes " reset" else []
  safe_bridge_words (word ∷ a ∷ b ∷ []) =
      if is_listed (lower a) bridge_targets && is_listed (lower b) bridge_values
      then 32 ∷ lower a ++ 32 ∷ lower b
      else []
  safe_bridge_words _ = []

  unfoldable pub safe_bridge_command_text : Text → Text
  safe_bridge_command_text body = prefix ++ codes "bridge" ++ safe_bridge_words (split body)

  abbrev pub asks_ha : List Text → Bool
  asks_ha (word ∷ a ∷ words) = text_eq (lower a) (codes "ha")
  asks_ha _ = false

  -- `_safe_command_text`; `is_known` says that there is a router whose registry resolves the name.
  unfoldable pub safe_command_text : (Text → Bool) → Text → Text
  unfolding safe_bridge_command_text
  safe_command_text is_known body =
      let stripped = strip body in
      let name = lower (remove_prefix prefix (first_word (split stripped))) in
      if not (is_known name)
      then prefix ++ codes "unknown"
      else if text_eq name (codes "estado")
      then prefix ++ codes "estado" ++ (if asks_ha (split stripped) then codes " ha" else [])
      else if text_eq name (codes "bridge")
      then safe_bridge_command_text stripped
      else prefix ++ name
