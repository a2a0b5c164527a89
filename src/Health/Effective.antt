-- ===== src/Health/Effective.antt =====
-- What a runtime override changes, and what a reset gives back.
use meshcore_control_bridge.Common.{
  ℕ, ◌≡◌, refl, ◌∙◌, String, Bool, Option, none, some, List, [], ◌∷◌, arith, str_eq, eq_iff,
  if◌then◌else◌, true,
}
use meshcore_control_bridge.Python.{ok, raise, value_error}
use meshcore_control_bridge.Health.State.{BridgeHealthState, effective_value, after_change}
use meshcore_control_bridge.Health.Overrides.{
  assign_override, finish_override, set_runtime_override, reset_runtime_overrides,
}

-- The configured value of a target, as if nothing were overridden.
unfoldable pub configured_value : String → BridgeHealthState → Option Bool
configured_value target h =
    if str_eq target "telegram_to_meshcore"
    then some h.configured_forward_telegram_to_meshcore
    else if str_eq target "meshcore_to_telegram"
    then some h.configured_forward_meshcore_to_telegram
    else if str_eq target "confirmation"
    then some h.configured_forward_confirmation_enabled
    else none

module _ (value : Bool) (h : BridgeHealthState) where
  assigned_effective :
      (target t : String) (before : Bool)
      → effective_value target h ≡ some before
      → effective_value t (assign_override target value h)
        ≡ (if str_eq target t then some value else effective_value t h)
  unfolding effective_value assign_override
  assigned_effective target t before known = ground (
    arith,
    eq_iff target t,
    eq_iff target "telegram_to_meshcore",
    eq_iff target "meshcore_to_telegram",
    eq_iff target "confirmation",
    eq_iff t "telegram_to_meshcore",
    eq_iff t "meshcore_to_telegram",
    eq_iff t "confirmation",
  )

  str_eq_refl : (t : String) → str_eq t t ≡ true
  str_eq_refl t = (eq_iff t t).1 refl

  effective_after_change :
      (now : ℕ) (t : String) (h' : BridgeHealthState)
      → effective_value t (after_change now h h') ≡ effective_value t h'
  unfolding effective_value after_change
  effective_after_change now t h' = refl

  -- the branches of `finish_override`, from the effective values
  finished :
      (now : ℕ) (target : String) (b a : Option Bool)
      → effective_value target h ≡ b
      → effective_value target (assign_override target value h) ≡ a
      → (b ≡ none → finish_override now target value h b a ≡ (raise value_error, h))
        × ((before : Bool)
            → b ≡ some before
            → ((finish_override now target value h b a).0
                ≡ ok (record {
                  target = target;
                  previous_value = before;
                  new_value = value;
                  override_value = some value;
                }))
              × ((t : String)
                  → effective_value t (finish_override now target value h b a).1
                    ≡ (if str_eq target t then some value else effective_value t h)))
  finished now target none a e k = (λ _. refl, λ before x. cc)
  finished now target (some b) none e k =
      cc (assigned_effective target target b e, str_eq_refl target)
  finished now target (some b) (some a) e k =
      let new : a ≡ value =
        ground (arith, assigned_effective target target b e, str_eq_refl target) in
      (
        λ x. cc,
        λ before x. (
          ground (arith, x, new),
          λ t. effective_after_change now t _ ∙ assigned_effective target t b e,
        ),
      )

  -- An override of an unknown target raises and changes nothing. An override of a known one reports
  -- its effective value before and the new value, gives the target the new value, and leaves the
  -- effective value of every other target.
  pub set_runtime_override_lem :
      (now : ℕ) (target : String)
      → (effective_value target h ≡ none
          → set_runtime_override now target value h ≡ (raise value_error, h))
        × ((before : Bool)
            → effective_value target h ≡ some before
            → ((set_runtime_override now target value h).0
                ≡ ok (record {
                  target = target;
                  previous_value = before;
                  new_value = value;
                  override_value = some value;
                }))
              × ((t : String)
                  → effective_value t (set_runtime_override now target value h).1
                    ≡ (if str_eq target t then some value else effective_value t h)))
  unfolding set_runtime_override
  set_runtime_override_lem now target = finished now target _ _ refl refl

-- A sequence of overrides: the time, the target and the value of each.
unfoldable pub set_all : List (ℕ × String × Bool) → BridgeHealthState → BridgeHealthState
set_all [] h = h
set_all ((now, target, value) ∷ rest) h = set_all rest (set_runtime_override now target value h).1

assigned_configured :
    (t target : String) (value : Bool) (h : BridgeHealthState)
    → configured_value t (assign_override target value h) ≡ configured_value t h
unfolding configured_value assign_override
assigned_configured t target value h = ground arith

finished_configured :
    (now : ℕ) (t target : String) (value : Bool) (h : BridgeHealthState) (b a : Option Bool)
    → configured_value t (finish_override now target value h b a).1 ≡ configured_value t h
finished_configured now t target value h none a = refl
finished_configured now t target value h (some b) none = assigned_configured t target value h
finished_configured now t target value h (some b) (some a) =
    unfold configured_value after_change in assigned_configured t target value h

set_all_configured :
    (t : String) (overrides : List (ℕ × String × Bool)) (h : BridgeHealthState)
    → configured_value t (set_all overrides h) ≡ configured_value t h
unfolding set_all set_runtime_override
set_all_configured t [] h = refl
set_all_configured t ((now, target, value) ∷ rest) h =
    set_all_configured t rest _ ∙ finished_configured now t target value h _ _

-- After any overrides, valid or not, a reset makes every target effective as it was configured
-- before them.
pub reset-set_all :
    (now : ℕ) (overrides : List (ℕ × String × Bool)) (h : BridgeHealthState) (t : String)
    → effective_value t (reset_runtime_overrides now (set_all overrides h)).1 ≡ configured_value t h
reset-set_all now overrides h t = restored (set_all overrides h) ∙ set_all_configured t overrides h
  where
    restored :
        (k : BridgeHealthState)
        → effective_value t (reset_runtime_overrides now k).1 ≡ configured_value t k
    restored k =
        unfold effective_value configured_value reset_runtime_overrides after_change in refl
