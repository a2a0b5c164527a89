-- ===== src/Commands/RegistryLaws.antt =====
-- Registering adds names and never takes one over.
use meshcore_control_bridge.Common.{
  ◌≡◌, refl, ◌||◌, Bool, false, none, some, List, [], ◌∷◌, ◌++◌, arith, if◌then◌else◌,
}
use meshcore_control_bridge.Python.{ok}
use meshcore_control_bridge.Text.Utf8.{Text}
use meshcore_control_bridge.Dedup.{text_eq}
use meshcore_control_bridge.Dedup.Laws.{text_eq_iff}
use meshcore_control_bridge.Commands.Registry.{
  CommandDefinition, command_names, Registry, lookup, register_names, register, resolve,
}

-- The key is one of the names in lower case.
unfoldable pub names_key : (Text → Text) → Text → List Text → Bool
names_key lower key [] = false
names_key lower key (name ∷ names) = text_eq (lower name) key || names_key lower key names

module _ {H : Type 0} (lower : Text → Text) (d : CommandDefinition H) where
  lookup-append :
      (key k : Text) (r : Registry H)
      → lookup key (r ++ (k, d) ∷ [])
        ≡ elim (lookup key r) [ some e ↦ some e | none ↦ if text_eq k key then some d else none ]
  unfolding lookup
  lookup-append key k [] = refl
  lookup-append key k ((j, e) ∷ r) = ground (arith, lookup-append key k r)

  names_keep :
      (names : List Text) (r : Registry H) (key : Text) (e : CommandDefinition H)
      → lookup key r ≡ some e
      → lookup key (register_names lower names d r).1 ≡ some e
  unfolding register_names
  names_keep [] r key e h = h
  names_keep (name ∷ names) r key e h =
      ground (
        arith,
        lookup-append key (lower name) r,
        names_keep names (r ++ (lower name, d) ∷ []) key e,
      )

  names_added :
      (names : List Text) (r : Registry H) (key : Text)
      → (register_names lower names d r).0 ≡ ok tt
      → lookup key (register_names lower names d r).1
        ≡ (if names_key lower key names then some d else lookup key r)
  unfolding register_names names_key
  names_added [] r key h = refl
  names_added (name ∷ names) r key h = ground (
    arith,
    lookup-append key (lower name) r,
    names_added names (r ++ (lower name, d) ∷ []) key,
    text_eq_iff (lower name) key,
  )

  -- Whether it succeeds or raises, a registration leaves every name that already had a command with
  -- that command; and if it succeeds, exactly its own names and aliases, in lower case, resolve to
  -- the new command, and every other name resolves as before.
  pub register_lem :
      (r : Registry H) (name : Text)
      → ((e : CommandDefinition H)
          → resolve lower name r ≡ some e
          → resolve lower name (register lower d r).1 ≡ some e)
        × ((register lower d r).0 ≡ ok tt
            → resolve lower name (register lower d r).1 ≡ (
                if names_key lower (lower name) (command_names d)
                then some d
                else resolve lower name r))
  unfolding register resolve
  register_lem r name =
      (names_keep (command_names d) r (lower name), names_added (command_names d) r (lower name))
