-- ===== src/Commands/Confirmation.antt =====
-- commands/confirmation.py: the confirmations that are pending. The random token is a parameter.
use meshcore_control_bridge.Common.{ℕ, ◌+◌, String, List}
use meshcore_control_bridge.Common.Dict.{Dict, put}
use meshcore_control_bridge.Text.Utf8.{Text}

pub record PendingConfirmation : Type 0 where
  pub confirmation_id : String
  pub sender_id : String
  pub command : Text
  pub args : List Text
  pub expires_at : ℕ

pub record ConfirmationStore : Type 0 where
  pub ttl_seconds : ℕ
  pub pending : Dict PendingConfirmation

-- `create` at the time `now`, where `token` is `token_hex(2).upper()`.
unfoldable pub create :
    (now : ℕ) (token sender_id : String) (command : Text) (args : List Text)
    → ConfirmationStore
    → PendingConfirmation × ConfirmationStore
create now token sender_id command args s =
    let confirmation : PendingConfirmation = record {
      confirmation_id = token;
      sender_id = sender_id;
      command = command;
      args = args;
      expires_at = now + s.ttl_seconds;
    } in
    (confirmation, record s { pending = put token confirmation s.pending })
