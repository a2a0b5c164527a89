-- ===== src/Commands/Listing.antt =====
-- commands/registry.py: the commands that a role sees, in the order of the help.
use meshcore_control_bridge.Common.{
  ℕ, Bool, true, false, ◌||◌, List, [], ◌∷◌, codes, ltb, ◌==◌, if◌then◌else◌,
}
use meshcore_control_bridge.Auth.{Role, level}
use meshcore_control_bridge.Text.Utf8.{Text}
use meshcore_control_bridge.Dedup.{text_eq}
use meshcore_control_bridge.Commands.Registry.{CommandDefinition, Registry}

-- `<` of Python on texts: the code points in order, a proper prefix first.
unfoldable pub text_lt : Text → Text → Bool
text_lt [] [] = false
text_lt [] (d ∷ t) = true
text_lt (c ∷ s) [] = false
text_lt (c ∷ s) (d ∷ t) = if c == d then text_lt s t else ltb c d

unfoldable pub rank : Text → ℕ
rank group = if text_eq group (codes "system") then 0 else 1

module _ {H : Type 0} where
  -- `<` of Python on the tuples of `_command_sort_key`
  unfoldable pub key_lt : CommandDefinition H → CommandDefinition H → Bool
  key_lt d e =
      if rank d.group == rank e.group
      then (if text_eq d.group e.group then text_lt d.name e.name else text_lt d.group e.group)
      else ltb (rank d.group) (rank e.group)

  -- The stable `sorted`: an element goes behind those that are not greater.
  unfoldable pub insert :
      CommandDefinition H → List (CommandDefinition H) → List (CommandDefinition H)
  unfolding key_lt
  insert d [] = d ∷ []
  insert d (e ∷ l) = if key_lt d e then d ∷ e ∷ l else e ∷ insert d l

  unfoldable pub sort_onto :
      List (CommandDefinition H) → List (CommandDefinition H) → List (CommandDefinition H)
  unfolding insert
  sort_onto sorted [] = sorted
  sort_onto sorted (d ∷ l) = sort_onto (insert d sorted) l

  -- `unique[definition.name] = definition`, as the list of the values: the keys are their names.
  unfoldable pub put_unique :
      CommandDefinition H → List (CommandDefinition H) → List (CommandDefinition H)
  put_unique d [] = d ∷ []
  put_unique d (e ∷ l) = if text_eq e.name d.name then d ∷ l else e ∷ put_unique d l

  -- The loop of `visible_commands`.
  unfoldable pub collect :
      Role → Registry H → List (CommandDefinition H) → List (CommandDefinition H)
  unfolding put_unique
  collect role [] unique = unique
  collect role ((key, d) ∷ r) unique =
      collect role r
        (if ltb (level role) (level d.minimum_role) then unique else put_unique d unique)

  unfoldable pub visible_commands : Registry H → Role → List (CommandDefinition H)
  unfolding collect sort_onto
  visible_commands r role = sort_onto [] (collect role r [])

  -- The comprehension of `group_commands`.
  unfoldable pub in_group : Text → List (CommandDefinition H) → List (CommandDefinition H)
  in_group group [] = []
  in_group group (d ∷ l) =
      let rest = in_group group l in
      if text_eq d.group group || text_eq d.name group then d ∷ rest else rest

  unfoldable pub group_commands :
      (Text → Text) → Registry H → Text → Role → List (CommandDefinition H)
  unfolding in_group visible_commands
  group_commands lower r group role = in_group (lower group) (visible_commands r role)
