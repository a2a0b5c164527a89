-- ===== src/Dedup.antt =====
-- security/deduplication.py: a message is handled once within a window.
pub mod Laws
pub mod Window
use meshcore_control_bridge.Common.{
  ℕ, ◌+◌, ◌/◌, String, Bool, true, false, ◌||◌, Option, none, some, List, [], ◌∷◌, ◌++◌, ltb, ◌==◌,
  if◌then◌else◌, str_eq, codes,
}
use meshcore_control_bridge.Models.{InboundMessage, RoomRef, MessageIdentity}
use meshcore_control_bridge.Auth.{sender_of}
use meshcore_control_bridge.Python.{Result, ok}
use meshcore_control_bridge.Storage.{Answers, Outcome, write_transaction}
use meshcore_control_bridge.Text.Utf8.{Text}
use meshcore_control_bridge.Text.Space.{strip, normalized_bridge_text}

-- Equality of texts.
unfoldable pub text_eq : Text → Text → Bool
text_eq [] [] = true
text_eq (c ∷ s) (d ∷ t) = if c == d then text_eq s t else false
text_eq _ _ = false

-- A row of `deduplication_keys`.
pub record Row : Type 0 where
  pub dedup_key : Text
  pub expires_at : ℕ

-- `DELETE FROM deduplication_keys WHERE expires_at < now`
unfoldable pub purge : ℕ → List Row → List Row
purge now [] = []
purge now (r ∷ rows) = let rest = purge now rows in if ltb r.expires_at now then rest else r ∷ rest

-- `SELECT … WHERE dedup_key = key`
unfoldable pub has_key : Text → List Row → Bool
unfolding text_eq
has_key key [] = false
has_key key (r ∷ rows) = text_eq r.dedup_key key || has_key key rows

-- The loop over the candidate keys.
unfoldable pub has_any : List Text → List Row → Bool
unfolding has_key
has_any [] rows = false
has_any (key ∷ keys) rows = has_key key rows || has_any keys rows

-- The transaction of `seen_or_store`: `legacy` are the keys of the earlier schema, which are
-- looked for and never stored.
unfoldable pub store_key : ℕ → ℕ → Text → List Text → List Row → Result Bool × List Row
store_key window_seconds now key legacy rows =
    let live = purge now rows in
    if has_any (key ∷ legacy) live
    then (ok true, live)
    else (ok false, record { dedup_key = key; expires_at = now + window_seconds } ∷ live)

-- `if platform_message_id:`, false for an empty text too
abbrev pub present : Option String → Bool
present none = false
present (some s) = if str_eq s "" then false else true

abbrev pub text_of : Option String → Text
text_of none = []
text_of (some s) = codes s

-- SHA-256 in hexadecimal, and a number in decimal, are parameters.
module _ (sha256 : Text → Text) (decimal : ℕ → Text) where
  unfoldable pub key_of : InboundMessage → Text
  key_of message =
      let transport : String = elim message.source_room [
        | none ↦ message.transport
        | some room ↦ room.transport
      ] in
      let room_id : Text = elim message.source_room [
        | none ↦ codes message.transport ++ codes ":channel:" ++ decimal message.channel_index
        | some room ↦ codes room.room_id
      ] in
      let message_id : Option String = elim message.message [
        | none ↦ message.message_id
        | some m ↦ m.message_id
      ] in
      let head =
        codes transport
        ++ codes ":"
        ++ room_id
        ++ codes ":"
        ++ sha256 (codes (sender_of message))
        ++ codes ":" in
      if present message_id
      then sha256 (codes "id:v2:" ++ head ++ text_of message_id)
      else sha256 (codes "hash:v2:" ++ head ++ sha256 (normalized_bridge_text message.body))

  unfoldable pub legacy_keys : ℕ → InboundMessage → List Text
  legacy_keys window_seconds message =
      let head =
        codes message.transport
        ++ codes ":"
        ++ codes message.sender_id
        ++ codes ":"
        ++ decimal message.channel_index
        ++ codes ":" in
      (if present message.message_id
        then sha256 (codes "id:" ++ head ++ text_of message.message_id)
        else sha256 (
            codes "hash:"
            ++ head
            ++ decimal (message.received_at / window_seconds)
            ++ codes ":"
            ++ strip message.body))
      ∷ []

  -- `seen_or_store`, at a reading of the clock and the answers of SQLite to its transaction.
  unfoldable pub seen_or_store :
      ℕ → Bool → ℕ → ℕ → Answers → ℕ → InboundMessage → List Row → Outcome (List Row) Bool
  unfolding store_key
  seen_or_store window_seconds in_transaction retries backoff answers now message rows =
      write_transaction in_transaction retries backoff answers
        (store_key window_seconds now (key_of message) (legacy_keys window_seconds message)) rows
