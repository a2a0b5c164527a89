-- ===== src/Health/Reason.antt =====
-- `_safe_reason` of bridge_health.py: only listed reasons are kept and shown.
use meshcore_control_bridge.Common.{
  ℕ, ◌+◌, ◌≡◌, String, ◌&&◌, Option, none, some, List, [], ◌∷◌, map, leb, ◌==◌, if◌then◌else◌,
  codes, ◌⊎◌,
}
use meshcore_control_bridge.Text.Utf8.{Text}
use meshcore_control_bridge.Text.Space.{strip}
use meshcore_control_bridge.Dedup.{text_eq}

unfoldable pub safe_failure_reasons : List String
safe_failure_reasons =
    "none" ∷ "database_locked" ∷ "storage_error" ∷ "transport_error" ∷ "transport_timeout"
    ∷ "transport_service_error" ∷ "rate_limited" ∷ "consumer_conflict" ∷ "websocket_disconnected"
    ∷ "telegram_disabled" ∷ "telegram_not_configured" ∷ "shutdown" ∷ []

-- `.lower().replace(" ", "_")` as far as the comparison with the listed reasons can tell: the
-- ASCII letters and the Kelvin sign are all that `lower` takes to ASCII letters.
unfoldable pub normalize_char : ℕ → ℕ
normalize_char c =
    if leb b'A' c && leb c b'Z'
    then c + 32
    else if c == 0x212A
    then b'k'
    else if c == 32
    then b'_'
    else c

-- The listed reason that is spelled so.
unfoldable pub find_reason : Text → List String → Option String
unfolding text_eq
find_reason text [] = none
find_reason text (r ∷ rs) = if text_eq (codes r) text then some r else find_reason text rs

abbrev pub reason_or_storage_error : Option String → String
reason_or_storage_error none = "storage_error"
reason_or_storage_error (some r) = r

unfoldable pub safe_reason : String → String
safe_reason reason =
    reason_or_storage_error
      (find_reason (map normalize_char (strip (codes reason))) safe_failure_reasons)

-- The reason is one of the list.
abbrev pub OneOf : List String → String → Type 0
OneOf [] s = ⊥
OneOf (r ∷ rs) s = (s ≡ r) ⊎ OneOf rs s
