-- ===== src/Tests/Texts.antt =====
-- The texts and the commands at concrete inputs.
use meshcore_control_bridge.Common.{
  ◌≤◌, ◌<◌, ◌≡◌, refl, arith, inl, true, some, [], ◌∷◌, ◌++◌, codes, All, length, if◌then◌else◌,
}
use meshcore_control_bridge.Python.{ok}
use meshcore_control_bridge.Text.Utf8.{Text, IsScalar, byte_len}
use meshcore_control_bridge.Text.Space.{split, join, normalized_bridge_text, normalized_lines}
use meshcore_control_bridge.Text.Words.{split-join}
use meshcore_control_bridge.Text.Trim.{
  truncate_utf8, trim_lora_response, detail_suffix, truncate_utf8_longest, trim_lora_response_lem,
}
use meshcore_control_bridge.Telegram.Render.{
  render_meshcore_forward_message, render_telegram_forward_message,
}
use meshcore_control_bridge.Telegram.Render.Laws.{
  RenderIsExact, render_meshcore_forward_message-RenderIsExact,
  render_telegram_forward_message-RenderIsExact,
}
use meshcore_control_bridge.Commands.Parser.{parse_command}
use meshcore_control_bridge.Commands.ParserLaws.{parse_command-join}
use meshcore_control_bridge.Commands.Listing.{visible_commands}
use meshcore_control_bridge.Commands.ListingLaws.{
  lists, offers, all_permitted, is_ordered, visible_commands_lem,
}
use meshcore_control_bridge.Commands.Registry.{
  Registry, CommandDefinition, command_names, register, resolve,
}
use meshcore_control_bridge.Commands.RegistryLaws.{names_key, register_lem}
use meshcore_control_bridge.Auth.{operator}
use meshcore_control_bridge.Tests.Data.{ping, plain}

-- Two letters, the second of two bytes, and a blank between them.
abbrev sample : Text
sample = 97 ∷ 32 ∷ 241 ∷ []

sample-IsScalar : All IsScalar sample
sample-IsScalar = (inl (omega arith), (inl (omega arith), (inl (omega arith), tt)))

prefix-IsScalar : All IsScalar (codes "T ")
prefix-IsScalar = (inl (omega arith), (inl (omega arith), tt))

truncate_utf8_longest_example :
    ((r : Text) × (truncate_utf8 sample 3 ++ r ≡ sample))
    × (byte_len (truncate_utf8 sample 3) ≤ 3)
    × ((p r : Text) → p ++ r ≡ sample → byte_len p ≤ 3 → length p ≤ length (truncate_utf8 sample 3))
truncate_utf8_longest_example = truncate_utf8_longest sample 3 sample-IsScalar

trim_lora_response_lem_example :
    (byte_len (trim_lora_response sample 3) ≤ 3)
    × (byte_len (normalized_lines sample) ≤ 3
        → trim_lora_response sample 3 ≡ normalized_lines sample)
    × (3 < byte_len (normalized_lines sample)
        → byte_len detail_suffix < 3
        → (body : Text) × (trim_lora_response sample 3 ≡ body ++ detail_suffix))
trim_lora_response_lem_example = trim_lora_response_lem sample 3 sample-IsScalar

render_meshcore_example :
    RenderIsExact sample (codes "T ") 5 (render_meshcore_forward_message sample (codes "T ") 5)
render_meshcore_example =
    render_meshcore_forward_message-RenderIsExact sample (codes "T ") 5 sample-IsScalar
      prefix-IsScalar

render_telegram_example :
    RenderIsExact sample (codes "T ") 20 (render_telegram_forward_message sample (codes "T ") 20)
render_telegram_example =
    render_telegram_forward_message-RenderIsExact sample (codes "T ") 20 sample-IsScalar
      prefix-IsScalar

split-join_example : split (join (codes "a" ∷ codes "b" ∷ [])) ≡ codes "a" ∷ codes "b" ∷ []
unfolding meshcore_control_bridge.Text.Space.is_space
split-join_example =
    split-join (codes "a" ∷ codes "b" ∷ []) ((refl, (refl, tt)), ((refl, (refl, tt)), tt))

parse_command-join_example :
    parse_command plain (codes "!" ++ join (codes "p" ∷ codes "q" ∷ [])) (codes "!")
    ≡ some (record { name = codes "p"; args = codes "q" ∷ [] })
unfolding meshcore_control_bridge.Text.Space.is_space
    meshcore_control_bridge.Commands.Shlex.is_quote
parse_command-join_example =
    parse_command-join plain (codes "!") (codes "p") (codes "q" ∷ []) (refl, (refl, tt))
      ((refl, (refl, tt), ((refl, refl), tt)), ((refl, (refl, tt), ((refl, refl), tt)), tt))

abbrev pings : Registry Text
pings = (codes "ping", ping) ∷ (codes "p", ping) ∷ []

register_lem_example :
    ((e : CommandDefinition Text)
      → resolve plain (codes "p") [] ≡ some e
      → resolve plain (codes "p") (register plain ping []).1 ≡ some e)
    × ((register plain ping []).0 ≡ ok tt
        → resolve plain (codes "p") (register plain ping []).1 ≡ (
            if names_key plain (codes "p") (command_names ping)
            then some ping
            else resolve plain (codes "p") []))
register_lem_example = register_lem plain ping [] (codes "p")

visible_commands_lem_example :
    (lists (codes "ping") (visible_commands pings operator) ≡ offers operator (codes "ping") pings)
    × (all_permitted operator (visible_commands pings operator) ≡ true)
    × (is_ordered (visible_commands pings operator) ≡ true)
visible_commands_lem_example = visible_commands_lem pings operator (codes "ping")
