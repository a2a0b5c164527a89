-- ===== src/Tests/Data.antt =====
-- A bridge with one command and one user, and a message for it.
use meshcore_control_bridge.Common.{ℕ, true, none, some, [], ◌∷◌, codes}
use meshcore_control_bridge.Python.{ok}
use meshcore_control_bridge.Text.Utf8.{Text}
use meshcore_control_bridge.Models.{InboundMessage}
use meshcore_control_bridge.Auth.{Authorizer, AuthorizedUser, admin, operator}
use meshcore_control_bridge.Commands.Registry.{CommandDefinition}
use meshcore_control_bridge.Commands.Router.{Router}
use meshcore_control_bridge.Storage.{Attempt}
use meshcore_control_bridge.World.Exec.{World, Environment}
use meshcore_control_bridge.Bridge.{BridgeService}

abbrev pub alice : AuthorizedUser
alice = record { sender_id = "alice"; name = "Alice"; role = admin }

abbrev pub authorizer : Authorizer
authorizer = record { users = ("alice", alice) ∷ []; room_policies = [] }

abbrev pub ping : CommandDefinition Text
ping = record {
  name = codes "ping";
  aliases = codes "p" ∷ [];
  group = codes "system";
  usage = codes "!ping";
  minimum_role = operator;
  handler = codes "pong";
}

abbrev pub router : Router Text
router = record {
  registry = (codes "ping", ping) ∷ [];
  authorizer = authorizer;
  prefix = codes "!";
  lower = λ s. s;
  show_exn = λ e. codes "fault";
  run_handler = λ reply message user args trail w. (ok reply, trail, w);
}

abbrev pub message : InboundMessage
message = record {
  transport = "meshcore";
  message_id = some "m1";
  sender_id = "alice";
  channel_index = 1;
  body = codes "!ping";
  received_at = 5;
  metadata = [];
  source_room = none;
  reply_target = none;
  sender = none;
  message =
      some (record { message_id = some "m1"; id_kind = "platform"; correlation_id = "corr:1" });
}

abbrev pub service : BridgeService Text
service = record {
  router = router;
  channel_index = 1;
  meshcore_response_max_bytes = 180;
  window_seconds = 60;
  audit_flow = some true;
  normal_text_forwarder = none;
}

abbrev pub calm : Attempt
calm = record { begins = none; commits = none; rolls_back = true }

abbrev pub env : Environment
env = record {
  clock = λ n. 10;
  audit_fault = λ n. none;
  send_fault = λ n. none;
  dedup_answers = λ n k. calm;
  store_answers = λ n k. calm;
  chat_fault = λ n. none;
}

abbrev pub world : World
world = record {
  health = none;
  rows = [];
  limiter = record { max_commands = 5; window_seconds = 60; events = [] };
  events = [];
  commands = [];
  sent = [];
  handled = [];
  telegram = record { state = []; updates = []; audit_events = []; pending = [] };
  posted = [];
  inbound_limiter = record { max_commands = 5; window_seconds = 60; events = [] };
  outbound_limiter = record { max_commands = 5; window_seconds = 60; events = [] };
  reads = 0;
}

-- A stand-in for a hash and for a numeral.
abbrev pub plain : Text → Text
plain s = s

abbrev pub numeral : ℕ → Text
numeral n = n ∷ []
