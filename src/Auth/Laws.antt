-- ===== src/Auth/Laws.antt =====
-- A message is authorised exactly when its sender is a user with the role and its room is open.
use meshcore_control_bridge.Common.{
  ◌≤◌, ◌≡◌, ◌↔◌, ◌⊎◌, true, false, some, arith, inl, inr, Bool-cases, Option-cases,
}
use meshcore_control_bridge.Common.Dict.{get}
use meshcore_control_bridge.Models.{InboundMessage, RoomRef}
use meshcore_control_bridge.Text.Space.{is_empty}
use meshcore_control_bridge.Auth.{
  Role, level, AuthorizedUser, RoomPolicy, Authorizer, sender_of, require_message,
}

-- The room lets a user of this role run commands: no room is restricted at all, or the message
-- names its room, and that has a policy which is enabled, allows commands and asks for no more.
abbrev pub RoomIsOpen : Authorizer → InboundMessage → Role → Type 0
RoomIsOpen a message role =
    (is_empty a.room_policies ≡ true)
    ⊎ ((is_empty a.room_policies ≡ false)
        × (room : RoomRef) × (policy : RoomPolicy) × (message.source_room ≡ some room)
        × (get room.room_id a.room_policies ≡ some policy)
        × (policy.enabled ≡ true)
        × (policy.allow_commands ≡ true)
        × (level policy.minimum_role ≤ level role))

module _ (a : Authorizer) (message : InboundMessage) (minimum_role : Role)
    (user : AuthorizedUser) where
  open_room : require_message a message minimum_role ≡ some user → RoomIsOpen a message user.role
  unfolding require_message
  open_room h = elim (Bool-cases (is_empty a.room_policies)) [
    | inl free ↦ inl free
    | inr ruled ↦ elim (Option-cases message.source_room) [
      | inl nowhere ↦ absurd (ground arith)
      | inr (room, here) ↦ elim (Option-cases (get room.room_id a.room_policies)) [
        | inl unknown ↦ absurd (ground arith)
        | inr (policy, e) ↦
            inr (ruled, room, policy, here, e, ground arith, ground arith, ground arith)
      ]
    ]
  ]

  require_message-granted :
      require_message a message minimum_role ≡ some user
      → (get (sender_of message) a.users ≡ some user)
        × (level minimum_role ≤ level user.role)
        × RoomIsOpen a message user.role
  unfolding require_message
  require_message-granted h = (ground arith, ground arith, open_room h)

  require_message_of_granted :
      get (sender_of message) a.users ≡ some user
      → level minimum_role ≤ level user.role
      → RoomIsOpen a message user.role
      → require_message a message minimum_role ≡ some user
  unfolding require_message
  require_message_of_granted e r (inl free) = ground arith
  require_message_of_granted e r (inr (ruled, room, policy, here, p, on, commands, low)) =
      ground arith

-- `require_message` returns a user exactly when the sender of the message is that registered user,
-- the role of the user is at least the minimum role, and the room of the message is open to the
-- role: a room without a policy is closed once any policy is configured.
pub require_message_iff :
    (a : Authorizer) (message : InboundMessage) (minimum_role : Role) (user : AuthorizedUser)
    → (require_message a message minimum_role ≡ some user) ↔ (
        (get (sender_of message) a.users ≡ some user)
        × (level minimum_role ≤ level user.role)
        × RoomIsOpen a message user.role)
require_message_iff a message minimum_role user = (
  λ h. require_message-granted a message minimum_role user h,
  λ k. require_message_of_granted a message minimum_role user k.0 k.1 k.2,
)

-- A user whom one minimum role lets through, every lower minimum role lets through.
pub require_message_mono :
    (a : Authorizer) (message : InboundMessage) (low high : Role) (user : AuthorizedUser)
    → level low ≤ level high
    → require_message a message high ≡ some user
    → require_message a message low ≡ some user
require_message_mono a message low high user le h =
    let (found, ranked, opened) = (require_message_iff a message high user).0 h in
    (require_message_iff a message low user).1 (found, omega arith, opened)
