-- ===== src/Auth.antt =====
-- auth/roles.py and auth/authorization.py: who may run a command, and in which room.
pub mod Laws
use meshcore_control_bridge.Common.{
  ℕ, String, Bool, true, false, ◌&&◌, Option, none, some, ltb, if◌then◌else◌,
}
use meshcore_control_bridge.Common.Dict.{Dict, get}
use meshcore_control_bridge.Models.{InboundMessage, RoomRef, SenderIdentity}
use meshcore_control_bridge.Text.Space.{is_empty}

pub data Role : Type 0 where
  readonly home operator admin : Role

-- The values of the `IntEnum`, by which roles are compared.
abbrev pub level : Role → ℕ
level readonly = 10
level home = 20
level operator = 30
level admin = 40

pub record AuthorizedUser : Type 0 where
  pub sender_id : String
  pub name : String
  pub role : Role

pub record RoomPolicy : Type 0 where
  pub room_id : String
  pub enabled : Bool
  pub minimum_role : Role
  pub allow_commands : Bool

pub record Authorizer : Type 0 where
  pub users : Dict AuthorizedUser
  pub room_policies : Dict RoomPolicy

unfoldable pub get_user : Authorizer → String → Option AuthorizedUser
get_user a sender_id = get sender_id a.users

unfoldable pub require : Authorizer → String → Role → Option AuthorizedUser
unfolding get_user
require a sender_id minimum_role = elim (get_user a sender_id) [
  | none ↦ none
  | some user ↦ if ltb (level user.role) (level minimum_role) then none else some user
]

unfoldable pub room_policy : Authorizer → InboundMessage → Option RoomPolicy
room_policy a message =
    if is_empty a.room_policies
    then none
    else elim message.source_room [ none ↦ none | some room ↦ get room.room_id a.room_policies ]

unfoldable pub allows_room : Authorizer → InboundMessage → Bool
unfolding room_policy
allows_room a message = elim (room_policy a message) [
  | none ↦ is_empty a.room_policies
  | some policy ↦ policy.enabled && policy.allow_commands
]

-- `message.sender.sender_id if message.sender is not None else message.sender_id`
abbrev pub sender_of : InboundMessage → String
sender_of message = elim message.sender [ none ↦ message.sender_id | some s ↦ s.sender_id ]

-- The role that the room's policy asks for, if it is higher than the command's.
abbrev pub required_role : Option RoomPolicy → Role → Role
required_role none minimum_role = minimum_role
required_role (some policy) minimum_role =
    if ltb (level minimum_role) (level policy.minimum_role)
    then policy.minimum_role
    else minimum_role

unfoldable pub require_message : Authorizer → InboundMessage → Role → Option AuthorizedUser
unfolding allows_room get_user
require_message a message minimum_role =
    if allows_room a message
    then elim (get_user a (sender_of message)) [
      | none ↦ none
      | some user ↦
          if ltb (level user.role) (level (required_role (room_policy a message) minimum_role))
          then none
          else some user
    ]
    else none
