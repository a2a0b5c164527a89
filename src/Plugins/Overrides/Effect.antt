-- ===== src/Plugins/Overrides/Effect.antt =====
-- An override that an administrator sets takes effect.
use meshcore_control_bridge.Common.{
  ℕ, ◌≤◌, ◌≡◌, ◌≢◌, refl, ap, ◌∙◌, String, Bool, true, false, not, Option, none, some, List, ltb,
  if◌then◌else◌, str_eq, eq_iff, arith,
}
use meshcore_control_bridge.Python.{
  Exn, value_error, runtime_error, os_error, timeout_error, sqlite_locked, sqlite_error,
  integrity_error, telegram_api_error, http_error, cancelled, other, telegram_rate_limit_error,
  telegram_conflict_error, Result, ok, raise, is_exception,
}
use meshcore_control_bridge.Text.Utf8.{Text}
use meshcore_control_bridge.Auth.{Role, admin, level}
use meshcore_control_bridge.Health.State.{BridgeHealthState}
use meshcore_control_bridge.Health.Overrides.{RuntimeOverrideChange}
use meshcore_control_bridge.Health.Effective.{set_runtime_override_lem}
use meshcore_control_bridge.World.Events.{
  AuditTrail, EventKind, override_requested, override_applied,
}
use meshcore_control_bridge.World.Exec.{
  World, Environment, Exec, continue, ◌>>=◌, pure, throw, audit_write, record_event,
}
use meshcore_control_bridge.Audit.{record_normalized, runtime_override_event}
use meshcore_control_bridge.Plugins.Overrides.{
  Handling, handled_on, ◌>=>◌, answer, Target, target_name, set_one, request_of, recover_override,
  audit_bridge_override, set_health, set_answer, set_override, fulfil, handle_bridge_admin,
}
use meshcore_control_bridge.Plugins.Overrides.Laws.{effective_in, audited-Leaves, answered-Leaves}

caught : (e : Exn) → e ≢ cancelled → is_exception e ≡ true
caught value_error n = refl
caught runtime_error n = refl
caught os_error n = refl
caught timeout_error n = refl
caught sqlite_locked n = refl
caught sqlite_error n = refl
caught integrity_error n = refl
caught telegram_api_error n = refl
caught telegram_conflict_error n = refl
caught (telegram_rate_limit_error k) n = refl
caught http_error n = refl
caught cancelled n = absurd (n refl)
caught (other name) n = refl

-- The action is not cancelled, whatever else it does.
record IsCalm {A : Type 0} (m : Exec A) : Type 0 where
  at : (w : World) → (m w).0 ≢ raise cancelled

module _ {A : Type 0} where
  IsCalm-pure : (a : A) → IsCalm (pure a)
  unfolding pure
  IsCalm-pure a = record { at = λ w h. cc }

  IsCalm-throw : IsCalm (throw {A = A} value_error)
  unfolding throw
  IsCalm-throw = record { at = λ w h. cc }

  IsCalm-if : (b : Bool) (m n : Exec A) → IsCalm m → IsCalm n → IsCalm (if b then m else n)
  IsCalm-if true m n p q = p
  IsCalm-if false m n p q = q

module _ {A B : Type 0} where
  IsCalm-bind :
      (m : Exec A) (f : A → Exec B) → IsCalm m → ((a : A) → IsCalm (f a)) → IsCalm (m >>= f)
  unfolding ◌>>=◌
  IsCalm-bind m f p q = record { at = λ w. next (m w).0 (m w).1 (p.at w) }
    where
      next : (r : Result A) (w : World) → r ≢ raise cancelled → (continue r f w).0 ≢ raise cancelled
      next (ok a) w n = (q a).at w
      next (raise e) w n = λ h. n (cc h)

module _ (env : Environment) (audit_flow : Option Bool) (lower : Text → Text)
    (calm : (n : ℕ) → env.audit_fault n ≢ some cancelled) where
  record_event-IsCalm :
      (kind : EventKind) (causation : Option ℕ) (correlation : String)
      → IsCalm (record_event env kind causation correlation)
  unfolding record_event audit_write
  record_event-IsCalm kind causation correlation = record {
    at = λ w. answered_by w (env.audit_fault w.reads) refl;
  }
    where
      answered_by :
          (w : World) (fault : Option Exn)
          → env.audit_fault w.reads ≡ fault
          → (record_event (record env { audit_fault = λ n. fault }) kind causation correlation w).0
            ≢ raise cancelled
      answered_by w none e = λ h. cc
      answered_by w (some x) e = λ h. calm w.reads (e ∙ cc h)

  override_event-IsCalm :
      (enabled : Bool) (trail : AuditTrail) (kind : EventKind)
      → IsCalm (runtime_override_event env enabled trail kind)
  unfolding runtime_override_event record_normalized
  override_event-IsCalm enabled trail kind = IsCalm-if _ _ _ IsCalm-throw (
      IsCalm-if (not enabled) _ _ (IsCalm-pure trail)
        (IsCalm-bind _ _ (record_event-IsCalm kind _ _) λ id. IsCalm-pure _))

  recovers :
      (trail : AuditTrail) (r : Result AuditTrail) (w : World)
      → r ≢ raise cancelled
      → (recover_override env audit_flow lower trail (r, w)).0 ≡ ok tt
  recovers trail (ok trail') w n = refl
  recovers trail (raise e) w n = rw (caught e (λ same. n (ap raise same))) refl

  audited-ok :
      (kind : EventKind) (trail : Option AuditTrail) (w : World)
      → (audit_bridge_override env audit_flow lower kind trail w).0 ≡ ok tt
  unfolding audit_bridge_override
  audited-ok kind none w = refl
  audited-ok kind (some trail) w = flowing audit_flow
    where
      flowing :
          (flow : Option Bool)
          → (audit_bridge_override env flow lower kind (some trail) w).0 ≡ ok tt
      flowing none = refl
      flowing (some enabled) =
          recovers trail (runtime_override_event env enabled trail kind w).0 _
            ((override_event-IsCalm enabled trail kind).at w)

  goes_on :
      {A B : Type 0} (r : Result A) (a : A) (trail : Option AuditTrail) (w : World)
      (f : A → Handling B)
      → r ≡ ok a
      → handled_on (r, trail, w) f ≡ f a trail w
  goes_on r a trail w f e = rw e refl

  set_health-sets :
      (target : Target) (requested before : Bool) (trail : Option AuditTrail) (w : World)
      → effective_in (target_name target) w ≡ some before
      → (c : RuntimeOverrideChange) × ((set_health env audit_flow lower target requested trail w).0
          ≡ ok c)
        × (effective_in
              (target_name target)
              (set_health env audit_flow lower target requested trail w).2
            ≡ some requested)
  unfolding set_health
  set_health-sets target requested before trail w e = assigned w.health e
    where
      assigned :
          (o : Option BridgeHealthState)
          → effective_in (target_name target) (record w { health = o }) ≡ some before
          → (c : RuntimeOverrideChange) × ((set_health env audit_flow lower target requested trail
                (record w { health = o })).0
              ≡ ok c)
            × (effective_in
                  (target_name target)
                  (set_health env audit_flow lower target requested trail
                    (record w { health = o })).2
                ≡ some requested)
      assigned none h = cc
      assigned (some s) h =
          let (done, values) =
            (set_runtime_override_lem requested s (env.clock w.reads) (target_name target)).1 before
              h in
          (
            _,
            done,
            values (target_name target)
                ∙ (rw ((eq_iff (target_name target) (target_name target)).1 refl) refl),
          )

  answered :
      (kind : EventKind) (body : Text) (trail : Option AuditTrail) (w : World)
      → ((audit_bridge_override env audit_flow lower kind >=> λ u. answer body) trail w).0 ≡ ok body
  answered kind body trail w =
      let audited = audit_bridge_override env audit_flow lower kind trail w in
      ap (λ r. r.0)
        (goes_on audited.0 tt audited.1 audited.2 (λ u. answer body) (audited-ok kind trail w))

  set_override-sets :
      (compact : Bool) (target : Target) (requested before : Bool) (trail : Option AuditTrail)
      (w : World)
      → effective_in (target_name target) w ≡ some before
      → ((set_override env audit_flow lower compact target requested trail w).0
          ≡ ok (set_answer compact target requested))
        × (effective_in
              (target_name target)
              (set_override env audit_flow lower compact target requested trail w).2
            ≡ some requested)
  unfolding set_override
  set_override-sets compact target requested before trail w e =
      let (c, done, value) = set_health-sets target requested before trail w e in
      let set = set_health env audit_flow lower target requested trail w in
      let kind : EventKind =
        override_applied c.target c.previous_value c.new_value c.override_value in
      let body = set_answer compact target requested in
      let next =
        goes_on set.0 c set.1 set.2
          (λ c'.
            audit_bridge_override env audit_flow lower
              (override_applied c'.target c'.previous_value c'.new_value c'.override_value)
            >=> λ u. answer body)
          done in
      (
        ap (λ r. r.0) next ∙ answered kind body set.1 set.2,
        ap (λ r. effective_in (target_name target) r.2) next
            ∙ ap (λ v. v.0)
                (answered-Leaves env audit_flow lower (target_name target)
                  (audit_bridge_override env audit_flow lower kind) body
                  (audited-Leaves env audit_flow lower (target_name target) kind) set.1 set.2)
            ∙ value,
      )

  fulfil-sets :
      (compact : Bool) (role : Role) (target : Target) (requested before : Bool)
      (trail : Option AuditTrail) (w : World)
      → level admin ≤ level role
      → effective_in (target_name target) w ≡ some before
      → ((fulfil env audit_flow lower compact role (set_one target requested) trail w).0
          ≡ ok (set_answer compact target requested))
        × (effective_in
              (target_name target)
              (fulfil env audit_flow lower compact role (set_one target requested) trail w).2
            ≡ some requested)
  unfolding fulfil
  fulfil-sets compact role target requested before trail w high e =
      let kind : EventKind = override_requested "set" (target_name target) (some requested) in
      let audited = audit_bridge_override env audit_flow lower kind trail w in
      let high' : ltb (level role) (level admin) ≡ false = ground (arith, high) in
      let same =
        ap (λ v. v.0) (audited-Leaves env audit_flow lower (target_name target) kind trail w) in
      let set = set_override-sets compact target requested before audited.1 audited.2 (same ∙ e) in
      rw (goes_on audited.0 tt audited.1 audited.2 _ (audited-ok kind trail w), high') set

  -- When an administrator asks for one override, no other exception than one that a handler catches
  -- comes from the audit, and there is a health, the command answers and the override is in effect.
  pub handle_bridge_admin-sets :
      (transport : String) (role : Role) (args : List Text) (trail : Option AuditTrail) (w : World)
      (target : Target) (requested before : Bool)
      → level admin ≤ level role
      → request_of env audit_flow lower args ≡ set_one target requested
      → effective_in (target_name target) w ≡ some before
      → ((handle_bridge_admin env audit_flow lower transport role args trail w).0
          ≡ ok (set_answer (not (str_eq transport "telegram")) target requested))
        × (effective_in
              (target_name target)
              (handle_bridge_admin env audit_flow lower transport role args trail w).2
            ≡ some requested)
  unfolding handle_bridge_admin
  handle_bridge_admin-sets transport role args trail w target requested before high asks e =
      rw asks (
        fulfil-sets (not (str_eq transport "telegram")) role target requested before trail w high e)
