-- ===== src/Plugins/Overrides/Laws.antt =====
-- Which overrides the command changes, and for whom.
use meshcore_control_bridge.Common.{
  ◌≤◌, ◌≡◌, ◌⊎◌, refl, sym, ap, ◌∙◌, inl, inr, String, Bool, Bool-cases, Option, none, some, List,
  [], ◌∷◌, ltb, if◌then◌else◌, str_eq, eq_iff, arith,
}
use meshcore_control_bridge.Python.{value_error, Result, ok, raise, is_exception}
use meshcore_control_bridge.Text.Utf8.{Text}
use meshcore_control_bridge.Auth.{Role, admin, level}
use meshcore_control_bridge.Health.State.{
  BridgeHealthState, effective_value, after_change, record_failure_locked,
}
use meshcore_control_bridge.Health.Ops.{set_audit_db_health, set_telegram_db_health}
use meshcore_control_bridge.Health.Overrides.{RuntimeOverrideChange}
use meshcore_control_bridge.Health.Effective.{
  configured_value, set_runtime_override_lem, reset-set_all, set_all,
}
use meshcore_control_bridge.World.Events.{AuditTrail, EventKind, override_requested}
use meshcore_control_bridge.World.Exec.{World, Environment}
use meshcore_control_bridge.World.Grows.{Fixes, Fixes-if}
use meshcore_control_bridge.Audit.{runtime_override_event}
use meshcore_control_bridge.Telegram.Forwarder.{sqlite_reason, degrade_audit, degrade_telegram}
use meshcore_control_bridge.Telegram.Service.Outside.{
  IsOutside, throw-Outside, record_normalized-Outside,
}
use meshcore_control_bridge.Plugins.Overrides.{
  Handling, handled_on, ◌>=>◌, answer, Target, tg2mc, mc2tg, confirm, target_name, Request,
  reset_all, set_one, unusable, request_of, recover_override, audit_bridge_override, audit_changes,
  reset_health, set_health, denied, reset_overrides, set_override, fulfil, handle_bridge_admin,
}

-- The effective and the configured value of a target, where there is a health.
abbrev pub values_of : String → Option BridgeHealthState → Option Bool × Option Bool
values_of t none = (none, none)
values_of t (some h) = (effective_value t h, configured_value t h)

abbrev pub values_in : String → World → Option Bool × Option Bool
values_in t w = values_of t w.health

abbrev pub effective_in : String → World → Option Bool
effective_in t w = (values_in t w).0

abbrev pub configured_in : String → World → Option Bool
configured_in t w = (values_in t w).1

-- What a request asks of a target: the value that it has then.
abbrev pub IsAsked : Request → String → World → Option Bool → Type 0
IsAsked reset_all t w value = value ≡ configured_in t w
IsAsked (set_one target requested) t w value = (t ≡ target_name target) × (value ≡ some requested)
IsAsked unusable t w value = ⊥

module _ (t : String) where
  changed_health :
      (change : BridgeHealthState → BridgeHealthState) (h : Option BridgeHealthState)
      → ((s : BridgeHealthState) → values_of t (some (change s)) ≡ values_of t (some s))
      → values_of t (elim h [ none ↦ none | some s ↦ some (change s) ]) ≡ values_of t h
  changed_health change none p = refl
  changed_health change (some s) p = p s

  values-IsOutside : IsOutside (values_in t)
  unfolding degrade_audit degrade_telegram set_audit_db_health set_telegram_db_health after_change
      record_failure_locked effective_value configured_value
  values-IsOutside = record {
    reads = λ n w. refl;
    events = λ es w. refl;
    tables = λ tables w. refl;
    audit = λ env e w.
        changed_health (set_audit_db_health (env.clock w.reads) "degraded" (some (sqlite_reason e)))
          w.health λ s. refl;
    telegram = λ env e w.
        changed_health
          (set_telegram_db_health (env.clock w.reads) "degraded" (some (sqlite_reason e))) w.health
          λ s. refl;
  }

  -- A step that leaves the values of the target.
  abbrev pub Leaves : {A : Type 0} → Handling A → Type 0
  Leaves m = (trail : Option AuditTrail) (w : World) → values_in t (m trail w).2 ≡ values_in t w

  pub handled_on-Leaves :
      {A B : Type 0} (r : Result A) (trail : Option AuditTrail) (w : World) (f : A → Handling B)
      → ((a : A) → Leaves (f a))
      → values_in t (handled_on (r, trail, w) f).2 ≡ values_in t w
  handled_on-Leaves (ok a) trail w f h = h a trail w
  handled_on-Leaves (raise e) trail w f h = refl

module _ (env : Environment) (audit_flow : Option Bool) (lower : Text → Text) (t : String) where
  override_event-Outside :
      (enabled : Bool) (trail : AuditTrail) (kind : EventKind)
      → Fixes (values_in t) (runtime_override_event env enabled trail kind)
  unfolding runtime_override_event
  override_event-Outside enabled trail kind =
      Fixes-if (values_in t) _ _ _ (throw-Outside (values-IsOutside t) env value_error)
        (record_normalized-Outside (values-IsOutside t) env enabled trail kind _)

  recovered :
      (trail : AuditTrail) (r : Result AuditTrail) (w : World)
      → values_in t (recover_override env audit_flow lower trail (r, w)).2 ≡ values_in t w
  unfolding set_audit_db_health after_change record_failure_locked effective_value configured_value
  recovered trail (ok trail') w = refl
  recovered trail (raise e) w = elim (Bool-cases (is_exception e)) [
    | inr passed ↦ rw passed refl
    | inl caught ↦ rw caught (
        changed_health t (set_audit_db_health (env.clock w.reads) "degraded" (some "storage_error"))
          w.health λ s. refl)
  ]

  pub audited-Leaves :
      (kind : EventKind) → Leaves t (audit_bridge_override env audit_flow lower kind)
  unfolding audit_bridge_override
  audited-Leaves kind none w = refl
  audited-Leaves kind (some trail) w = flowing audit_flow
    where
      flowing :
          (flow : Option Bool)
          → values_in t (audit_bridge_override env flow lower kind (some trail) w).2 ≡ values_in t w
      flowing none = refl
      flowing (some enabled) =
          recovered trail (runtime_override_event env enabled trail kind w).0 _
          ∙ (override_event-Outside enabled trail kind).at w

  after_audit :
      {B : Type 0} (kind : EventKind) (m : Handling B)
      → Leaves t m
      → Leaves t (audit_bridge_override env audit_flow lower kind >=> λ u. m)
  after_audit kind m h trail w =
      handled_on-Leaves t (audit_bridge_override env audit_flow lower kind trail w).0 _ _ (λ u. m)
        (λ u. h)
      ∙ audited-Leaves kind trail w

  audit_changes-Leaves :
      (changes : List RuntimeOverrideChange) → Leaves t (audit_changes env audit_flow lower changes)
  unfolding audit_changes
  audit_changes-Leaves [] = λ trail w. refl
  audit_changes-Leaves (c ∷ changes) = after_audit _ _ (audit_changes-Leaves changes)

  denied-Leaves :
      (operation target : String) (requested : Option Bool)
      → Leaves t (denied env audit_flow lower operation target requested)
  unfolding denied
  denied-Leaves operation target requested = after_audit _ _ (λ trail w. refl)

  -- The value is as before, or it is what an administrator asked for.
  abbrev pub IsGranted : Role → Request → World → World → Type 0
  IsGranted role request w w' =
      (effective_in t w' ≡ effective_in t w)
      ⊎ ((level admin ≤ level role) × IsAsked request t w (effective_in t w'))

  reset_health-values :
      (trail : Option AuditTrail) (w : World)
      → effective_in t (reset_health env audit_flow lower trail w).2 ≡ configured_in t w
  unfolding reset_health
  reset_health-values trail w = reset w.health
    where
      reset :
          (h : Option BridgeHealthState)
          → effective_in t (reset_health env audit_flow lower trail (record w { health = h })).2
            ≡ configured_in t (record w { health = h })
      reset none = refl
      reset (some h) = unfold set_all in reset-set_all (env.clock w.reads) [] h t

  pub answered-Leaves :
      (m : Handling (Unit {0})) (body : Text) → Leaves t m → Leaves t (m >=> λ u. answer body)
  answered-Leaves m body h trail w =
      handled_on-Leaves t (m trail w).0 _ _ (λ u. answer body) (λ u trail' w'. refl) ∙ h trail w

  reset_overrides-values :
      (compact : Bool) (trail : Option AuditTrail) (w : World)
      → effective_in t (reset_overrides env audit_flow lower compact trail w).2 ≡ configured_in t w
  unfolding reset_overrides
  reset_overrides-values compact trail w =
      ap (λ v. v.0)
        (handled_on-Leaves t (reset_health env audit_flow lower trail w).0 _ _ _
          (λ changes. answered-Leaves _ _ (audit_changes-Leaves changes)))
      ∙ reset_health-values trail w

  -- Each target has an effective value.
  pub known :
      (target : Target) (h : BridgeHealthState)
      → (before : Bool) × (effective_value (target_name target) h ≡ some before)
  unfolding effective_value
  known tg2mc h = (_, refl)
  known mc2tg h = (_, refl)
  known confirm h = (_, refl)

  set_health-values :
      (target : Target) (requested : Bool) (trail : Option AuditTrail) (w : World)
      → (effective_in t (set_health env audit_flow lower target requested trail w).2
          ≡ effective_in t w)
        ⊎ ((t ≡ target_name target)
            × (effective_in t (set_health env audit_flow lower target requested trail w).2
                ≡ some requested))
  unfolding set_health
  set_health-values target requested trail w = assigned w.health
    where
      chosen :
          (h : BridgeHealthState) (value : Option Bool)
          → value ≡ (if str_eq (target_name target) t then some requested else effective_value t h)
          → (value ≡ effective_value t h) ⊎ ((t ≡ target_name target) × (value ≡ some requested))
      chosen h value e = elim (Bool-cases (str_eq (target_name target) t)) [
        | inl same ↦ inr (sym ((eq_iff (target_name target) t).0 same), e ∙ (rw same refl))
        | inr other ↦ inl (e ∙ (rw other refl))
      ]

      assigned :
          (o : Option BridgeHealthState)
          → (effective_in t
                (set_health env audit_flow lower target requested trail (record w { health = o })).2
              ≡ effective_in t (record w { health = o }))
            ⊎ ((t ≡ target_name target)
                × (effective_in t
                      (set_health env audit_flow lower target requested trail
                        (record w { health = o })).2
                    ≡ some requested))
      assigned none = inl refl
      assigned (some h) =
          let (before, e) = known target h in
          chosen h _ (
            ((set_runtime_override_lem requested h (env.clock w.reads) (target_name target)).1
                before e).1
              t)

  set_override-values :
      (compact : Bool) (target : Target) (requested : Bool) (trail : Option AuditTrail) (w : World)
      → (effective_in t (set_override env audit_flow lower compact target requested trail w).2
          ≡ effective_in t w)
        ⊎ ((t ≡ target_name target)
            × (effective_in t (set_override env audit_flow lower compact target requested trail w).2
                ≡ some requested))
  unfolding set_override
  set_override-values compact target requested trail w =
      let rest =
        ap (λ v. v.0)
          (handled_on-Leaves t (set_health env audit_flow lower target requested trail w).0 _ _ _
            (λ c. answered-Leaves _ _ (audited-Leaves _))) in
      elim (set_health-values target requested trail w) [
        | inl same ↦ inl (rest ∙ same)
        | inr set ↦ inr (set.0, rest ∙ set.1)
      ]

  -- Behind the event of the request, which leaves all values.
  decided :
      (role : Role) (request : Request) (w w' after : World)
      → values_in t w' ≡ values_in t w
      → IsGranted role request w' after
      → IsGranted role request w after
  decided role request w w' after e (inl same) = inl (same ∙ ap (λ v. v.0) e)
  decided role reset_all w w' after e (inr g) = inr (g.0, g.1 ∙ ap (λ v. v.1) e)
  decided role (set_one target requested) w w' after e (inr g) = inr (g.0, g.1)
  decided role unusable w w' after e (inr g) = absurd g.1

  behind :
      {B : Type 0} (role : Role) (request : Request) (w : World) (r : Result (Unit {0}))
      (trail : Option AuditTrail) (w' : World) (f : Unit {0} → Handling B)
      → values_in t w' ≡ values_in t w
      → ((u : Unit {0}) → IsGranted role request w' (f u trail w').2)
      → IsGranted role request w (handled_on (r, trail, w') f).2
  behind role request w (ok u) trail w' f e h = decided role request w w' (f u trail w').2 e (h u)
  behind role request w (raise x) trail w' f e h = inl (ap (λ v. v.0) e)

  -- The steps behind the check of the role, for a request.
  checked :
      (role : Role) (request : Request) (refuse perform : Handling Text)
      → Leaves t refuse
      → ((trail : Option AuditTrail) (w : World)
          → (effective_in t (perform trail w).2 ≡ effective_in t w)
            ⊎ IsAsked request t w (effective_in t (perform trail w).2))
      → (trail : Option AuditTrail) (w : World)
      → IsGranted role request w
          ((if ltb (level role) (level admin) then refuse else perform) trail w).2
  checked role request refuse perform h k trail w =
      elim (Bool-cases (ltb (level role) (level admin))) [
        | inl low ↦ rw low (inl (ap (λ v. v.0) (h trail w)))
        | inr high ↦ rw high (elim (k trail w) [
          | inl same ↦ inl same
          | inr asked ↦ inr (ground (arith, high), asked)
        ])
      ]

  requested :
      (kind : EventKind) (role : Role) (request : Request) (refuse perform : Handling Text)
      → Leaves t refuse
      → ((trail : Option AuditTrail) (w : World)
          → (effective_in t (perform trail w).2 ≡ effective_in t w)
            ⊎ IsAsked request t w (effective_in t (perform trail w).2))
      → (trail : Option AuditTrail) (w : World)
      → IsGranted role request w
          ((audit_bridge_override env audit_flow lower kind >=> λ u.
              if ltb (level role) (level admin) then refuse else perform)
            trail w).2
  requested kind role request refuse perform h k trail w =
      let audited = audit_bridge_override env audit_flow lower kind trail w in
      behind role request w audited.0 audited.1 audited.2
        (λ u. if ltb (level role) (level admin) then refuse else perform)
        (audited-Leaves kind trail w)
        (λ u. checked role request refuse perform h k audited.1 audited.2)

  fulfil-values :
      (compact : Bool) (role : Role) (request : Request) (trail : Option AuditTrail) (w : World)
      → IsGranted role request w (fulfil env audit_flow lower compact role request trail w).2
  unfolding fulfil
  fulfil-values compact role reset_all =
      requested (override_requested "reset" "all" none) role reset_all
        (denied env audit_flow lower "reset" "all" none)
        (reset_overrides env audit_flow lower compact) (denied-Leaves "reset" "all" none)
        (λ trail w. inr (reset_overrides-values compact trail w))
  fulfil-values compact role (set_one target value) =
      requested (override_requested "set" (target_name target) (some value)) role
        (set_one target value) (denied env audit_flow lower "set" (target_name target) (some value))
        (set_override env audit_flow lower compact target value)
        (denied-Leaves "set" (target_name target) (some value))
        (λ trail w. set_override-values compact target value trail w)
  fulfil-values compact role unusable = λ trail w. inl refl

  -- The command changes whether a direction of the forwarding, or its confirmation, is in effect only
  -- for an administrator, and only as the arguments ask: to the value that they name for that target,
  -- or with `reset` to the configured one.
  pub handle_bridge_admin-values :
      (transport : String) (role : Role) (args : List Text) (trail : Option AuditTrail) (w : World)
      → IsGranted role
          (request_of env audit_flow lower args)
          w
          (handle_bridge_admin env audit_flow lower transport role args trail w).2
  unfolding handle_bridge_admin
  handle_bridge_admin-values transport role args trail w = fulfil-values _ role _ trail w
