-- ===== src/Plugins/System.antt =====
-- plugins/system.py: `ping`, `help`, `bridge` and `last`, and the length of an exterior line.
use meshcore_control_bridge.Common.{
  ℕ, Bool, not, Option, none, some, List, [], ◌∷◌, ◌++◌, leb, if◌then◌else◌, str_eq, codes, length,
}
use meshcore_control_bridge.Text.Utf8.{Text}
use meshcore_control_bridge.Models.{InboundMessage}
use meshcore_control_bridge.Auth.{AuthorizedUser}
use meshcore_control_bridge.Health.State.{snapshot}
use meshcore_control_bridge.Health.Render.{render_bridge_status_for_channel, render_last_activity}
use meshcore_control_bridge.World.Exec.{Environment}
use meshcore_control_bridge.Commands.Registry.{Registry}
use meshcore_control_bridge.Commands.Help.{render_help}
use meshcore_control_bridge.Plugins.Overrides.{Handling, answer, handle_bridge_admin}

abbrev pub ping : Handling Text
ping = answer (codes "pong")

module _ {H : Type 0} (lower upper : Text → Text) (registry : Registry H) where
  -- `help_command`, where the service is a registry.
  unfoldable pub help_command : AuthorizedUser → List Text → Handling Text
  unfolding render_help
  help_command user [] = answer (render_help lower upper registry user.role none)
  help_command user (group ∷ args) =
      answer (render_help lower upper registry user.role (some (lower group)))

-- `_fit_exterior_response`
unfoldable pub fit_exterior_response : Text → Text → Text → Text
fit_exterior_response full_line temperature_line label =
    if leb (length full_line) 160
    then full_line
    else if leb (length temperature_line) 160
    then temperature_line
    else label ++ codes ": N/D"

module _ (env : Environment) (audit_flow : Option Bool) (lower : Text → Text) (decimal : ℕ → Text)
    (events : Option Bool) (heartbeat : Option ℕ) where
  abbrev pub is_compact : InboundMessage → Bool
  is_compact message = not (str_eq message.transport "telegram")

  unfoldable pub bridge_status : InboundMessage → Handling Text
  bridge_status message trail w = elim w.health [
    | none ↦ answer (codes "Bridge: N/D") trail w
    | some h ↦
        answer
          (render_bridge_status_for_channel decimal (snapshot (env.clock w.reads) h)
            message.channel_index (is_compact message) events heartbeat)
          trail w
  ]

  unfoldable pub bridge_admin : InboundMessage → AuthorizedUser → List Text → Handling Text
  bridge_admin message user args trail w = elim w.health [
    | none ↦ answer (codes "Bridge: N/D") trail w
    | some h ↦ handle_bridge_admin env audit_flow lower message.transport user.role args trail w
  ]

  -- `bridge`
  unfoldable pub bridge : InboundMessage → AuthorizedUser → List Text → Handling Text
  unfolding bridge_status bridge_admin
  bridge message user [] = bridge_status message
  bridge message user (a ∷ args) = bridge_admin message user (a ∷ args)

  -- `last`
  unfoldable pub last : InboundMessage → Handling Text
  last message trail w = elim w.health [
    | none ↦ answer (codes "Last: N/D") trail w
    | some h ↦
        answer
          (render_last_activity decimal (snapshot (env.clock w.reads) h) (env.clock w.reads)
            (is_compact message))
          trail w
  ]
