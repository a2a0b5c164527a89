-- ===== src/Commands/ListingLaws.antt =====
-- What a role sees of the registry.
use meshcore_control_bridge.Common.{
  ◌≡◌, refl, Bool, true, false, not, ◌&&◌, ◌||◌, List, [], ◌∷◌, ltb, arith,
}
use meshcore_control_bridge.Auth.{Role, level}
use meshcore_control_bridge.Text.Utf8.{Text}
use meshcore_control_bridge.Dedup.{text_eq}
use meshcore_control_bridge.Dedup.Laws.{text_eq_iff}
use meshcore_control_bridge.Commands.Registry.{CommandDefinition, Registry}
use meshcore_control_bridge.Commands.Listing.{
  text_lt, key_lt, insert, sort_onto, put_unique, collect, visible_commands,
}

text_lt_asymm : (s t : Text) → text_lt s t ≡ true → text_lt t s ≡ false
unfolding text_lt
text_lt_asymm [] [] h = refl
text_lt_asymm [] (d ∷ t) h = refl
text_lt_asymm (c ∷ s) [] h = cc
text_lt_asymm (c ∷ s) (d ∷ t) h = ground (arith, text_lt_asymm s t)

module _ {H : Type 0} where
  -- The commands of a list that have the name.
  unfoldable pub lists : Text → List (CommandDefinition H) → Bool
  lists name [] = false
  lists name (d ∷ l) = text_eq d.name name || lists name l

  -- A command of the name that the role may run stands in the registry, under whatever key.
  unfoldable pub offers : Role → Text → Registry H → Bool
  offers role name [] = false
  offers role name ((key, d) ∷ r) =
      (not (ltb (level role) (level d.minimum_role)) && text_eq d.name name) || offers role name r

  unfoldable pub all_permitted : Role → List (CommandDefinition H) → Bool
  all_permitted role [] = true
  all_permitted role (d ∷ l) = not (ltb (level role) (level d.minimum_role)) && all_permitted role l

  -- No element stands before a smaller one.
  unfoldable pub is_ordered : List (CommandDefinition H) → Bool
  is_ordered [] = true
  is_ordered (d ∷ []) = true
  is_ordered (d ∷ e ∷ l) = not (key_lt e d) && is_ordered (e ∷ l)

  key_lt_asymm : (d e : CommandDefinition H) → key_lt d e ≡ true → key_lt e d ≡ false
  unfolding key_lt
  key_lt_asymm d e h = ground (
    arith,
    text_eq_iff d.group e.group,
    text_eq_iff e.group d.group,
    text_lt_asymm d.group e.group,
    text_lt_asymm d.name e.name,
  )

  lists-insert :
      (name : Text) (d : CommandDefinition H) (l : List (CommandDefinition H))
      → lists name (insert d l) ≡ (text_eq d.name name || lists name l)
  unfolding insert lists
  lists-insert name d [] = refl
  lists-insert name d (e ∷ l) = ground (arith, lists-insert name d l)

  permitted-insert :
      (role : Role) (d : CommandDefinition H) (l : List (CommandDefinition H))
      → all_permitted role (insert d l)
        ≡ (not (ltb (level role) (level d.minimum_role)) && all_permitted role l)
  unfolding insert all_permitted
  permitted-insert role d [] = refl
  permitted-insert role d (e ∷ l) = ground (arith, permitted-insert role d l)

  insert-ordered :
      (d : CommandDefinition H) (l : List (CommandDefinition H))
      → is_ordered l ≡ true
      → is_ordered (insert d l) ≡ true
  unfolding insert is_ordered
  insert-ordered d [] h = refl
  insert-ordered d (e ∷ []) h = ground (arith, key_lt_asymm d e)
  insert-ordered d (e ∷ f ∷ l) h =
      ground (arith, key_lt_asymm d e, key_lt_asymm d f, insert-ordered d (f ∷ l))

  lists-put_unique :
      (name : Text) (d : CommandDefinition H) (l : List (CommandDefinition H))
      → lists name (put_unique d l) ≡ (text_eq d.name name || lists name l)
  unfolding put_unique lists
  lists-put_unique name d [] = refl
  lists-put_unique name d (e ∷ l) = ground (
    arith,
    lists-put_unique name d l,
    text_eq_iff e.name d.name,
    text_eq_iff e.name name,
    text_eq_iff d.name name,
  )

  permitted-put_unique :
      (role : Role) (d : CommandDefinition H) (l : List (CommandDefinition H))
      → ltb (level role) (level d.minimum_role) ≡ false
      → all_permitted role l ≡ true
      → all_permitted role (put_unique d l) ≡ true
  unfolding put_unique all_permitted
  permitted-put_unique role d [] h g = ground arith
  permitted-put_unique role d (e ∷ l) h g = ground (arith, permitted-put_unique role d l)

  lists-sort_onto :
      (name : Text) (sorted l : List (CommandDefinition H))
      → lists name (sort_onto sorted l) ≡ (lists name sorted || lists name l)
  unfolding sort_onto lists
  lists-sort_onto name sorted [] = ground arith
  lists-sort_onto name sorted (d ∷ l) =
      ground (arith, lists-sort_onto name (insert d sorted) l, lists-insert name d sorted)

  permitted-sort_onto :
      (role : Role) (sorted l : List (CommandDefinition H))
      → all_permitted role (sort_onto sorted l)
        ≡ (all_permitted role sorted && all_permitted role l)
  unfolding sort_onto all_permitted
  permitted-sort_onto role sorted [] = ground arith
  permitted-sort_onto role sorted (d ∷ l) =
      ground (arith, permitted-sort_onto role (insert d sorted) l, permitted-insert role d sorted)

  sort_onto-ordered :
      (sorted l : List (CommandDefinition H))
      → is_ordered sorted ≡ true
      → is_ordered (sort_onto sorted l) ≡ true
  unfolding sort_onto
  sort_onto-ordered sorted [] h = h
  sort_onto-ordered sorted (d ∷ l) h =
      sort_onto-ordered (insert d sorted) l (insert-ordered d sorted h)

  lists-collect :
      (role : Role) (name : Text) (r : Registry H) (unique : List (CommandDefinition H))
      → lists name (collect role r unique) ≡ (lists name unique || offers role name r)
  unfolding collect offers
  lists-collect role name [] unique = ground arith
  lists-collect role name ((key, d) ∷ r) unique = ground (
    arith,
    lists-collect role name r unique,
    lists-collect role name r (put_unique d unique),
    lists-put_unique name d unique,
  )

  permitted-collect :
      (role : Role) (r : Registry H) (unique : List (CommandDefinition H))
      → all_permitted role unique ≡ true
      → all_permitted role (collect role r unique) ≡ true
  unfolding collect
  permitted-collect role [] unique h = h
  permitted-collect role ((key, d) ∷ r) unique h = ground (
    arith,
    permitted-collect role r unique,
    permitted-collect role r (put_unique d unique),
    permitted-put_unique role d unique,
  )

  -- A role sees exactly the names of the commands of the registry that it may run, whatever the
  -- keys they are registered under; every command it sees is one it may run; and they come in the
  -- order of the sort key.
  pub visible_commands_lem :
      (r : Registry H) (role : Role) (name : Text)
      → (lists name (visible_commands r role) ≡ offers role name r)
        × (all_permitted role (visible_commands r role) ≡ true)
        × (is_ordered (visible_commands r role) ≡ true)
  unfolding visible_commands lists all_permitted is_ordered
  visible_commands_lem r role name = (
    ground (arith, lists-sort_onto name [] (collect role r []), lists-collect role name r []),
    ground (arith, permitted-sort_onto role [] (collect role r []), permitted-collect role r []),
    sort_onto-ordered [] (collect role r []) refl,
  )
