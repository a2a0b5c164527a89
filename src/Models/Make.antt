-- ===== src/Models/Make.antt =====
-- models.py: the constructors of the messages, with their validation.
use Prim.Native.String.{◌++◌ as str_append}
use meshcore_control_bridge.Common.{
  ℕ, ◌≡◌, refl, sym, ap, arith, eq_iff, Bool-cases, inl, inr, String, Bool, true, false, not, ◌&&◌,
  ◌||◌, Option, none, some, List, [], ◌∷◌, ltb, if◌then◌else◌, str_eq, codes, length, drop, ◌-◌,
  ◌==◌,
}
use meshcore_control_bridge.Common.Dict.{Dict}
use meshcore_control_bridge.Python.{value_error, Result, ok, raise}
use meshcore_control_bridge.Text.Utf8.{Text}
use meshcore_control_bridge.Text.Space.{is_empty, strip}
use meshcore_control_bridge.Models.{Value, RoomRef, SenderIdentity, MessageIdentity, InboundMessage}

unfoldable pub after : {A B : Type 0} → Result A → (A → Result B) → Result B
after (ok a) f = f a
after (raise e) f = raise e

after-inv :
    {A B : Type 0} (r : Result A) (f : A → Result B) {b : B}
    → after r f ≡ ok b
    → (a : A) × (r ≡ ok a) × (f a ≡ ok b)
unfolding after
after-inv (ok a) f h = (a, refl, h)
after-inv (raise e) f h = cc

-- The metadata that a constructor is given: a dictionary that JSON can encode, or the
-- `MappingProxyType` that a made message has.
pub data Mapping : Type 0 where
  plain proxy : Dict Value → Mapping

abbrev pub max_metadata_bytes : ℕ
max_metadata_bytes = 8192

abbrev pub room_kinds : List String
room_kinds = "meshcore_channel" ∷ "telegram_chat" ∷ "direct" ∷ "local" ∷ []

abbrev pub identity_kinds : List String
identity_kinds =
    "meshcore_pubkey_prefix" ∷ "meshcore_node_id" ∷ "telegram_user_id" ∷ "telegram_sender_chat_id"
    ∷ "synthetic_test" ∷ "unknown" ∷ []

unfoldable pub prefixed : Text → Text → Bool
prefixed [] s = true
prefixed (c ∷ p) [] = false
prefixed (c ∷ p) (d ∷ s) = let rest = prefixed p s in if c == d then rest else false

abbrev pub suffixed : Text → Text → Bool
suffixed p s = prefixed p (drop (length s - length p) s) && not (ltb (length s) (length p))

abbrev is_one_of : String → List String → Bool
is_one_of s [] = false
is_one_of s (r ∷ rs) = str_eq s r || is_one_of s rs

-- `_validate_schema_text`
unfoldable pub validate_schema_text : String → Result (Unit {0})
validate_schema_text value = if is_empty (strip (codes value)) then raise value_error else ok tt

-- `_validate_kind`
unfoldable pub validate_kind : String → List String → Result (Unit {0})
validate_kind value allowed = after (validate_schema_text value) λ _.
    if is_one_of value allowed || prefixed (codes "custom:") (codes value)
    then ok tt
    else raise value_error

-- `RoomRef.__post_init__` and `SenderIdentity.__post_init__`, but for the metadata of the two
unfoldable pub make_room : RoomRef → Result RoomRef
make_room room = after (validate_schema_text room.transport) λ _.
    after (validate_schema_text room.room_id)
      λ _. after (validate_kind room.room_kind room_kinds) λ _. ok room

unfoldable pub make_sender : SenderIdentity → Result SenderIdentity
make_sender sender = after (validate_schema_text sender.sender_id) λ _.
    after (validate_schema_text sender.transport_scope)
      λ _. after (validate_kind sender.identity_kind identity_kinds) λ _. ok sender

-- `SenderIdentity.from_sender_id`
abbrev pub identity_kind_of : Text → String
identity_kind_of s =
    if prefixed (codes "meshcore-pubkey-prefix:") s
    then "meshcore_pubkey_prefix"
    else if prefixed (codes "telegram-user:") s
    then "telegram_user_id"
    else if prefixed (codes "test:") s
    then "synthetic_test"
    else "unknown"

abbrev pub is_stable : Text → Bool
is_stable s =
    not (str_eq (identity_kind_of s) "synthetic_test")
    && not (is_empty s)
    && not (suffixed (codes ":unknown") s)

unfoldable pub from_sender_id : String → String → Result SenderIdentity
unfolding make_sender
from_sender_id sender_id transport_scope = make_sender (record {
  sender_id = sender_id;
  transport_scope = transport_scope;
  identity_kind = identity_kind_of (codes sender_id);
  stable = is_stable (codes sender_id);
})

-- The message names its room, the room of the answer and its sender, all of its own transport, and
-- has an identity.
pub record IsConsistent (m : InboundMessage) : Type 0 where
  pub room : RoomRef
  pub target : RoomRef
  pub from : SenderIdentity
  pub identity : MessageIdentity
  pub has_room : m.source_room ≡ some room
  pub has_target : m.reply_target ≡ some target
  pub has_sender : m.sender ≡ some from
  pub has_identity : m.message ≡ some identity
  pub room_transport : room.transport ≡ m.transport
  pub target_transport : target.transport ≡ m.transport
  pub sender_transport : from.transport_scope ≡ m.transport

-- The decimal numeral of a channel, a fresh correlation id and the size of the encoded metadata are
-- parameters.
module _ (decimal : ℕ → String) (correlation_id : String) (encoded_size : Dict Value → ℕ) where
  -- `RoomRef.channel`
  unfoldable pub channel : String → ℕ → Result RoomRef
  unfolding make_room
  channel transport channel_index = make_room (record {
    transport = transport;
    room_id = str_append transport (str_append ":channel:" (decimal channel_index));
    room_kind = "meshcore_channel";
  })

  -- `MessageIdentity.from_message_id` where no kind is given, and the checks of `MessageOrigin`
  unfoldable pub from_message_id : String → String → Option String → Result MessageIdentity
  from_message_id transport room_id message_id = after (validate_schema_text transport) λ _.
      after (validate_schema_text room_id) λ _. after (validate_schema_text correlation_id) λ _.
        ok (record {
          message_id = message_id;
          id_kind = elim message_id [
            | none ↦ "missing"
            | some m ↦ if str_eq m "" then "missing" else "platform"
          ];
          correlation_id = correlation_id;
        })

  -- `_copy_metadata`: `json.dumps` refuses a proxy, and the result is a proxy of a copy. The copy
  -- has its keys in order, which no code reads.
  unfoldable pub copy_metadata : Mapping → Result (Dict Value)
  copy_metadata (proxy metadata) = raise value_error
  copy_metadata (plain metadata) =
      if ltb max_metadata_bytes (encoded_size metadata) then raise value_error else ok metadata

  -- `_validate_transport_consistency`
  unfoldable pub validate_transport_consistency :
      String → RoomRef → RoomRef → SenderIdentity → Result (Unit {0})
  validate_transport_consistency transport source_room reply_target sender =
      if not (str_eq source_room.transport transport)
      then raise value_error
      else if not (str_eq reply_target.transport source_room.transport)
      then raise value_error
      else if not (str_eq sender.transport_scope source_room.transport)
      then raise value_error
      else ok tt

  abbrev pub given_or : {A : Type 0} → Option A → Result A → Result A
  given_or (some a) other = ok a
  given_or none other = other

  -- `InboundMessage.__post_init__`, for the metadata that is given and the other fields of `m`
  unfoldable pub make_inbound : Mapping → InboundMessage → Result InboundMessage
  unfolding validate_transport_consistency
  make_inbound given m = after (validate_schema_text m.transport) λ _.
      after (validate_schema_text m.sender_id) λ _. after (copy_metadata given) λ metadata.
        after (given_or m.source_room (channel m.transport m.channel_index)) λ source_room.
          after (given_or m.reply_target (ok source_room)) λ reply_target.
            after (given_or m.sender (from_sender_id m.sender_id m.transport)) λ sender.
              after
                (given_or m.message
                  (from_message_id source_room.transport source_room.room_id m.message_id))
                λ message.
                  after (validate_transport_consistency m.transport source_room reply_target sender)
                    λ _. ok (record m {
                      metadata = metadata;
                      source_room = some source_room;
                      reply_target = some reply_target;
                      sender = some sender;
                      message = some message;
                    })

  copy_metadata-same :
      (given : Mapping) (copied : Dict Value)
      → copy_metadata given ≡ ok copied
      → copy_metadata (plain copied) ≡ ok copied
  unfolding copy_metadata
  copy_metadata-same (proxy metadata) copied h = cc
  copy_metadata-same (plain metadata) copied h =
      elim (Bool-cases (ltb max_metadata_bytes (encoded_size metadata))) [
        | inl big ↦ absurd (ground arith)
        | inr small ↦ ground arith
      ]

  same_transports :
      (transport : String) (room target : RoomRef) (sender : SenderIdentity) (u : Unit {0})
      → validate_transport_consistency transport room target sender ≡ ok u
      → (room.transport ≡ transport)
        × (target.transport ≡ transport)
        × (sender.transport_scope ≡ transport)
        × (validate_transport_consistency transport room target sender ≡ ok tt)
  unfolding validate_transport_consistency
  same_transports transport room target sender u h = ground (
    arith,
    eq_iff room.transport transport,
    eq_iff target.transport room.transport,
    eq_iff sender.transport_scope room.transport,
  )

  abbrev made_or : InboundMessage → Result InboundMessage → InboundMessage
  made_or m (ok made) = made
  made_or m (raise e) = m

  remade :
      (m : InboundMessage) (u1 u2 u3 : Unit {0}) (room target : RoomRef) (sender : SenderIdentity)
      (message : MessageIdentity)
      → validate_schema_text m.transport ≡ ok u1
      → validate_schema_text m.sender_id ≡ ok u2
      → copy_metadata (plain m.metadata) ≡ ok m.metadata
      → m.source_room ≡ some room
      → m.reply_target ≡ some target
      → m.sender ≡ some sender
      → m.message ≡ some message
      → validate_transport_consistency m.transport room target sender ≡ ok u3
      → IsConsistent m
        × (make_inbound (plain m.metadata) m ≡ ok m)
        × (make_inbound (proxy m.metadata) m ≡ raise value_error)
  unfolding make_inbound after copy_metadata
  remade m u1 u2 u3 room target sender message e1 e2 e3 e4 e5 e6 e7 e8 =
      let (room_transport, target_transport, sender_transport, e9) =
        same_transports m.transport room target sender u3 e8 in
      (
        record {
          room = room;
          target = target;
          from = sender;
          identity = message;
          has_room = e4;
          has_target = e5;
          has_sender = e6;
          has_identity = e7;
          room_transport = room_transport;
          target_transport = target_transport;
          sender_transport = sender_transport;
        },
        rw (e1, e2, e3, e4, e5, e6, e7, e9) refl,
        rw (e1, e2) refl,
      )

  -- A message that is made names its room, the room of the answer and its sender, all of its own
  -- transport, and has an identity; made again from its fields with a plain copy of its metadata it
  -- is the same message, and with the metadata as it stands, a proxy, it is refused.
  pub make_inbound_lem :
      (given : Mapping) (m made : InboundMessage)
      → make_inbound given m ≡ ok made
      → IsConsistent made
        × (make_inbound (plain made.metadata) made ≡ ok made)
        × (make_inbound (proxy made.metadata) made ≡ raise value_error)
  unfolding make_inbound
  make_inbound_lem given m made h =
      let (u1, e1, h1) = after-inv _ _ h in
      let (u2, e2, h2) = after-inv _ _ h1 in
      let (metadata, e3, h3) = after-inv _ _ h2 in
      let (room, e4, h4) = after-inv _ _ h3 in
      let (target, e5, h5) = after-inv _ _ h4 in
      let (sender, e6, h6) = after-inv _ _ h5 in
      let (message, e7, h7) = after-inv _ _ h6 in
      let (u3, e8, h8) = after-inv _ _ h7 in
      let kept = copy_metadata-same given metadata e3 in
      let e : made ≡ record m {
        metadata = metadata;
        source_room = some room;
        reply_target = some target;
        sender = some sender;
        message = some message;
      } =
        ap (made_or m) (sym h8) in
      rw e (remade _ u1 u2 u3 room target sender message e1 e2 kept refl refl refl refl e8)
