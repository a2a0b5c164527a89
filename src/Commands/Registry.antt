-- ===== src/Commands/Registry.antt =====
-- commands/registry.py: the commands by their names and aliases. Handlers are a parameter.
use meshcore_control_bridge.Common.{Option, none, some, List, [], ◌∷◌, ◌++◌, if◌then◌else◌}
use meshcore_control_bridge.Python.{Result, ok, raise, value_error}
use meshcore_control_bridge.Auth.{Role}
use meshcore_control_bridge.Text.Utf8.{Text}
use meshcore_control_bridge.Dedup.{text_eq}

pub record CommandDefinition (H : Type 0) : Type 0 where
  pub name : Text
  pub aliases : List Text
  pub group : Text
  pub usage : Text
  pub minimum_role : Role
  pub handler : H

module _ {H : Type 0} where
  abbrev pub command_names : CommandDefinition H → List Text
  command_names d = d.name ∷ d.aliases

-- The dictionary of the registry, in the order of insertion.
abbrev pub Registry : Type 0 → Type 0
Registry H = List (Text × CommandDefinition H)

module _ {H : Type 0} where
  unfoldable pub lookup : Text → Registry H → Option (CommandDefinition H)
  lookup key [] = none
  lookup key ((k, d) ∷ r) = if text_eq k key then some d else lookup key r

  -- The loop of `register`: names before a clash stay registered.
  unfoldable pub register_names :
      (Text → Text) → List Text → CommandDefinition H → Registry H → Result (Unit {0}) × Registry H
  register_names lower [] d r = (ok tt, r)
  register_names lower (name ∷ names) d r = elim (lookup (lower name) r) [
    | some other ↦ (raise value_error, r)
    | none ↦ register_names lower names d (r ++ (lower name, d) ∷ [])
  ]

  unfoldable pub register :
      (Text → Text) → CommandDefinition H → Registry H → Result (Unit {0}) × Registry H
  register lower d r = register_names lower (command_names d) d r

  unfoldable pub resolve : (Text → Text) → Text → Registry H → Option (CommandDefinition H)
  resolve lower name r = lookup (lower name) r
