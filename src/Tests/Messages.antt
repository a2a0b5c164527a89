-- ===== src/Tests/Messages.antt =====
-- The bridge on one message.
use meshcore_control_bridge.Common.{ℕ, ◌≡◌, refl, inl, ◌↔◌, ◌≤◌, String, true, none, some, codes}
use meshcore_control_bridge.Python.{raise, value_error, ok}
use meshcore_control_bridge.Models.{InboundMessage, RoomRef}
use meshcore_control_bridge.Models.Make.{
  plain as plain_map, proxy, IsConsistent, make_inbound, make_inbound_lem,
}
use meshcore_control_bridge.Auth.{operator, require_message, level, sender_of}
use meshcore_control_bridge.Auth.Laws.{require_message_iff, RoomIsOpen}
use meshcore_control_bridge.Common.Dict.{get}
use meshcore_control_bridge.Commands.Router.{handle}
use meshcore_control_bridge.Commands.Router.Laws.{IsGranted, handle-authorized}
use meshcore_control_bridge.World.Grows.{AtMostOne, Grows, sent_of, handled_of}
use meshcore_control_bridge.World.Keeps.{Keeps}
use meshcore_control_bridge.Bridge.{process_message}
use meshcore_control_bridge.Bridge.Laws.{
  IsReply, IsAccepted, OthersKeep, process_message-handled, process_message-sent,
  process_message-refused,
}
use meshcore_control_bridge.Telegram.Forwarder.{Forwarding, forward_normal_text}
use meshcore_control_bridge.Telegram.Forwarder.Posts.{IsForwarded, forward_normal_text-posted}
use meshcore_control_bridge.Telegram.Forwarder.Asked.{asked_at}
use meshcore_control_bridge.Tests.Data.{
  alice, authorizer, router, message, service, env, plain, numeral, world,
}

runs_quietly : OthersKeep plain numeral env service handled_of
runs_quietly = record {
  handlers = λ h m u args trail w. refl;
  forwarder = λ forward e m t. absurd cc;
}

sends_quietly : OthersKeep plain numeral env service sent_of
sends_quietly = record {
  handlers = λ h m u args trail w. refl;
  forwarder = λ forward e m t. absurd cc;
}

process_message-handled_example :
    Grows handled_of
      (IsAccepted plain numeral env service message)
      (process_message plain numeral env service message)
process_message-handled_example =
    process_message-handled plain numeral env service message runs_quietly

process_message-sent_example :
    Grows sent_of
      (IsReply plain numeral env service message)
      (process_message plain numeral env service message)
process_message-sent_example = process_message-sent plain numeral env service message sends_quietly

abbrev stray : InboundMessage
stray = record message { channel_index = 2 }

process_message-refused_example : Keeps (process_message plain numeral env service stray)
process_message-refused_example = process_message-refused plain numeral env service stray (inl refl)

handle-authorized_example :
    Grows handled_of (IsGranted env true router message) (handle env true router message none)
handle-authorized_example =
    handle-authorized env true router (λ h m u args trail w. refl) message none

require_message_iff_example : (require_message authorizer message operator ≡ some alice) ↔ (
    (get (sender_of message) authorizer.users ≡ some alice)
    × (level operator ≤ level alice.role)
    × RoomIsOpen authorizer message alice.role)
require_message_iff_example = require_message_iff authorizer message operator alice

abbrev numeral_text : ℕ → String
numeral_text n = "1"

abbrev bare : InboundMessage
bare = record message { message = none }

abbrev made : InboundMessage
made = record bare {
  source_room = some room;
  reply_target = some room;
  sender = some (record {
    sender_id = "alice";
    transport_scope = "meshcore";
    identity_kind = "unknown";
    stable = true;
  });
  message =
      some (record { message_id = some "m1"; id_kind = "platform"; correlation_id = "corr:2" });
}
  where
    room : RoomRef
    room = record {
      transport = "meshcore";
      room_id = "meshcore:channel:1";
      room_kind = "meshcore_channel";
    }

made_of_bare : make_inbound numeral_text "corr:2" (λ m. 2) (plain_map bare.metadata) bare ≡ ok made
unfolding make_inbound meshcore_control_bridge.Models.Make.after
    meshcore_control_bridge.Models.Make.validate_schema_text
    meshcore_control_bridge.Text.Space.strip meshcore_control_bridge.Text.Space.rstrip
    meshcore_control_bridge.Text.Space.lstrip meshcore_control_bridge.Text.Space.is_space
    meshcore_control_bridge.Models.Make.copy_metadata meshcore_control_bridge.Models.Make.channel
    meshcore_control_bridge.Models.Make.validate_kind
    meshcore_control_bridge.Models.Make.from_sender_id meshcore_control_bridge.Models.Make.prefixed
    meshcore_control_bridge.Models.Make.from_message_id
made_of_bare = refl

make_inbound_lem_example :
    IsConsistent made
    × (make_inbound numeral_text "corr:2" (λ m. 2) (plain_map made.metadata) made ≡ ok made)
    × (make_inbound numeral_text "corr:2" (λ m. 2) (proxy made.metadata) made ≡ raise value_error)
make_inbound_lem_example =
    make_inbound_lem numeral_text "corr:2" (λ m. 2) (plain_map bare.metadata) bare made made_of_bare

abbrev forwarding : Forwarding
forwarding = record {
  prefix = codes "MC: ";
  max_bytes = 100;
  forward = true;
  audit = true;
  content_ref = plain;
  decimal = numeral_text;
  lower = λ s. s;
}

abbrev greeting : InboundMessage
greeting = record message { body = codes "hello" }

forward_normal_text-posted_example :
    AtMostOne
      (IsForwarded env forwarding greeting (env.clock (asked_at forwarding world)) world)
      world.posted
      (forward_normal_text env forwarding greeting none world).1.posted
forward_normal_text-posted_example = forward_normal_text-posted env forwarding greeting none world
