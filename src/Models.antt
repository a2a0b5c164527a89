-- ===== src/Models.antt =====
-- models.py: the normalised messages that the components exchange.
pub mod Make
use meshcore_control_bridge.Common.{ℕ, String, Bool, Option, List}
use meshcore_control_bridge.Common.Dict.{Dict}
use meshcore_control_bridge.Text.Utf8.{Text}

-- A JSON value of a message's metadata; lists and mappings are `nested`, which no code reads.
pub data Value : Type 0 where
  null : Value
  boolean : Bool → Value
  number : ℕ → Value
  text : String → Value
  nested : Value

pub record RoomRef : Type 0 where
  pub transport : String
  pub room_id : String
  pub room_kind : String

pub record SenderIdentity : Type 0 where
  pub sender_id : String
  pub transport_scope : String
  pub identity_kind : String
  pub stable : Bool

pub record MessageIdentity : Type 0 where
  pub message_id : Option String
  pub id_kind : String
  pub correlation_id : String

pub record InboundMessage : Type 0 where
  pub transport : String
  pub message_id : Option String
  pub sender_id : String
  pub channel_index : ℕ
  pub body : Text
  pub received_at : ℕ
  pub metadata : Dict Value
  pub source_room : Option RoomRef
  pub reply_target : Option RoomRef
  pub sender : Option SenderIdentity
  pub message : Option MessageIdentity

pub record OutboundMessage : Type 0 where
  pub destination : String
  pub channel_index : ℕ
  pub body : Text
  pub reply_to : Option String
  pub reply_target : Option RoomRef
