-- ===== src/Commands/Help.antt =====
-- commands/help.py: the text of the help, for a role and possibly a group.
use meshcore_control_bridge.Common.{
  Bool, true, false, Option, none, some, List, [], ◌∷◌, ◌++◌, codes, take, if◌then◌else◌,
}
use meshcore_control_bridge.Auth.{Role}
use meshcore_control_bridge.Text.Utf8.{Text}
use meshcore_control_bridge.Commands.Registry.{CommandDefinition, Registry}
use meshcore_control_bridge.Commands.Listing.{visible_commands, group_commands}

-- `"\n".join`, with the code point of the line feed
abbrev pub join_lines : List Text → Text
join_lines [] = []
join_lines (line ∷ []) = line
join_lines (line ∷ next ∷ lines) = line ++ 10 ∷ join_lines (next ∷ lines)

module _ {H : Type 0} where
  abbrev pub usages : List (CommandDefinition H) → List Text
  usages [] = []
  usages (d ∷ l) = d.usage ∷ usages l

  -- `sorted({definition.group for definition in commands})` is true unless there is no command.
  abbrev pub has_groups : List (CommandDefinition H) → Bool
  has_groups [] = false
  has_groups (d ∷ l) = true

  -- The branch of a group.
  unfoldable pub group_help : (Text → Text) → Text → List (CommandDefinition H) → Text
  group_help upper group [] = codes "Sin comandos disponibles."
  group_help upper group (d ∷ l) = join_lines (take 8 (upper group ∷ usages (d ∷ l)))

  -- The branch without one.
  unfoldable pub general_help : List (CommandDefinition H) → Text
  general_help [] = codes "Sin comandos disponibles."
  general_help (d ∷ l) = join_lines (
      codes "MeshCore Bridge" ∷ usages (take 6 (d ∷ l))
      ++ (if has_groups (d ∷ l) then codes "Mas: !help <grupo>" ∷ [] else []))

  unfoldable pub render_help : (lower upper : Text → Text) → Registry H → Role → Option Text → Text
  unfolding group_commands visible_commands group_help general_help
  render_help lower upper r role none = general_help (visible_commands r role)
  render_help lower upper r role (some []) = general_help (visible_commands r role)
  render_help lower upper r role (some (c ∷ group)) =
      group_help upper (c ∷ group) (group_commands lower r (c ∷ group) role)
