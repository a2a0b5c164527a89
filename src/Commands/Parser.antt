-- ===== src/Commands/Parser.antt =====
-- commands/parser.py. `str.lower` is a parameter.
use meshcore_control_bridge.Common.{
  Bool, true, false, Option, none, some, List, [], ◌∷◌, ◌==◌, if◌then◌else◌, drop, length,
}
use meshcore_control_bridge.Text.Utf8.{Text}
use meshcore_control_bridge.Text.Space.{is_empty, strip}
use meshcore_control_bridge.Commands.Shlex.{shlex_split}

pub record ParsedCommand : Type 0 where
  pub name : Text
  pub args : List Text

unfoldable pub starts_with : Text → Text → Bool
starts_with s [] = true
starts_with [] (p ∷ ps) = false
starts_with (c ∷ s) (p ∷ ps) = if c == p then starts_with s ps else false

-- From the words of the command to its name and its arguments.
abbrev pub parsed_words : (Text → Text) → Option (List Text) → Option ParsedCommand
parsed_words lower none = none
parsed_words lower (some []) = none
parsed_words lower (some (name ∷ args)) = some (record { name = lower name; args = args })

unfoldable pub parse_command : (Text → Text) → Text → Text → Option ParsedCommand
parse_command lower text prefix =
    let normalized = strip text in
    let command_text = strip (drop (length prefix) normalized) in
    if starts_with normalized prefix
    then (if is_empty command_text then none else parsed_words lower (shlex_split command_text))
    else none
