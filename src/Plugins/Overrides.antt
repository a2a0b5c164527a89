-- ===== src/Plugins/Overrides.antt =====
-- plugins/system.py: `bridge` with arguments, the temporary overrides of the forwarding.
pub mod Laws
pub mod Effect
use meshcore_control_bridge.Common.{
  ℕ, String, Bool, true, false, not, Option, none, some, List, [], ◌∷◌, ◌++◌, ltb, if◌then◌else◌,
  str_eq, codes,
}
use meshcore_control_bridge.Python.{Exn, value_error, Result, ok, raise, is_exception}
use meshcore_control_bridge.Text.Utf8.{Text}
use meshcore_control_bridge.Dedup.{text_eq}
use meshcore_control_bridge.Auth.{Role, admin, level}
use meshcore_control_bridge.Health.State.{BridgeHealthState}
use meshcore_control_bridge.Health.Ops.{set_audit_db_health}
use meshcore_control_bridge.Health.Overrides.{
  RuntimeOverrideChange, set_runtime_override, reset_runtime_overrides,
}
use meshcore_control_bridge.World.Events.{
  AuditTrail, EventKind, override_requested, override_denied, override_applied, override_reset,
}
use meshcore_control_bridge.World.Exec.{World, Environment, Exec, on_health}
use meshcore_control_bridge.Audit.{runtime_override_event}

-- A step of a handler, which carries the trail of its context along.
abbrev pub Handling : Type 0 → Type 0
Handling A = Option AuditTrail → World → Result A × Option AuditTrail × World

abbrev pub handled_on :
    {A B : Type 0}
    → Result A × Option AuditTrail × World
    → (A → Handling B)
    → Result B × Option AuditTrail × World
handled_on (ok a, trail, w) f = f a trail w
handled_on (raise e, trail, w) f = (raise e, trail, w)

infixl 5 ◌>=>◌
abbrev pub ◌>=>◌ : {A B : Type 0} → Handling A → (A → Handling B) → Handling B
(m >=> f) trail w = handled_on (m trail w) f

abbrev pub done : Handling (Unit {0})
done trail w = (ok tt, trail, w)

abbrev pub answer : Text → Handling Text
answer body trail w = (ok body, trail, w)

-- The three targets by their short names.
pub data Target : Type 0 where
  tg2mc mc2tg confirm : Target

-- `_BRIDGE_OVERRIDE_TARGETS`
abbrev pub target_name : Target → String
target_name tg2mc = "telegram_to_meshcore"
target_name mc2tg = "meshcore_to_telegram"
target_name confirm = "confirmation"

-- What the arguments ask for.
pub data Request : Type 0 where
  reset_all : Request
  set_one : Target → Bool → Request
  unusable : Request

abbrev pub target_of : Text → Option Target
target_of s =
    if text_eq s (codes "tg2mc")
    then some tg2mc
    else if text_eq s (codes "mc2tg")
    then some mc2tg
    else if text_eq s (codes "confirm")
    then some confirm
    else none

abbrev pub set_request : Option Target → Text → Request
set_request none value = unusable
set_request (some target) value =
    if text_eq value (codes "on")
    then set_one target true
    else if text_eq value (codes "off")
    then set_one target false
    else unusable

-- `_BRIDGE_OVERRIDE_LABELS`
abbrev pub labels : Target → Text × Text
labels tg2mc = (codes "Telegram -> MeshCore", codes "T2M")
labels mc2tg = (codes "MeshCore -> Telegram", codes "M2T")
labels confirm = (codes "Confirmación Telegram", codes "CF")

abbrev pub state_word : Target → Bool → Text
state_word confirm requested = if requested then codes "activada" else codes "desactivada"
state_word _ requested = if requested then codes "activado" else codes "desactivado"

abbrev pub set_answer : Bool → Target → Bool → Text
set_answer compact target requested =
    if compact
    then (labels target).1
      ++ codes ":"
      ++ (if requested then codes "on" else codes "off")
      ++ codes "*"
    else (labels target).0 ++ codes ": " ++ state_word target requested ++ codes " hasta reinicio."

abbrev pub reset_answer : Bool → Text
reset_answer compact =
    if compact
    then codes "Overrides eliminados."
    else codes "Overrides temporales eliminados. Se usa la configuración de la App."

-- `_bridge_usage`
abbrev pub usage_answer : Bool → Text
usage_answer compact =
    if compact
    then codes "Uso: !bridge tg2mc|mc2tg|confirm on|off"
    else codes "Uso: !bridge tg2mc|mc2tg|confirm on|off o !bridge reset"

-- `audit_flow` says whether there is an `AuditFlow`, and whether it records events.
module _ (env : Environment) (audit_flow : Option Bool) (lower : Text → Text) where
  -- `args[0].lower()` and `args[1].lower()`
  unfoldable pub request_of : List Text → Request
  request_of (operation ∷ []) =
      if text_eq (lower operation) (codes "reset") then reset_all else unusable
  request_of (operation ∷ value ∷ []) = set_request (target_of (lower operation)) (lower value)
  request_of _ = unusable

  -- `except Exception` of `_audit_bridge_override`
  abbrev pub recover_override :
      AuditTrail → Result AuditTrail × World → Result (Unit {0}) × Option AuditTrail × World
  recover_override trail (ok trail', w) = (ok tt, some trail', w)
  recover_override trail (raise e, w) =
      if is_exception e
      then (
        ok tt,
        some trail,
        on_health (set_audit_db_health (env.clock w.reads) "degraded" (some "storage_error")) w,
      )
      else (raise e, some trail, w)

  -- `_audit_bridge_override`
  unfoldable pub audit_bridge_override : EventKind → Handling (Unit {0})
  audit_bridge_override kind none w = (ok tt, none, w)
  audit_bridge_override kind (some trail) w = elim audit_flow [
    | none ↦ (ok tt, some trail, w)
    | some enabled ↦ recover_override trail (runtime_override_event env enabled trail kind w)
  ]

  -- an event for each target that a reset brings back
  unfoldable pub audit_changes : List RuntimeOverrideChange → Handling (Unit {0})
  unfolding audit_bridge_override
  audit_changes [] = done
  audit_changes (c ∷ changes) =
      audit_bridge_override (override_reset c.target c.previous_value c.new_value c.override_value)
      >=> λ u. audit_changes changes

  -- The health is there when the command has arguments.
  unfoldable pub reset_health : Handling (List RuntimeOverrideChange)
  reset_health trail w = elim w.health [
    | none ↦ (ok [], trail, w)
    | some h ↦
        let (changes, h') = reset_runtime_overrides (env.clock w.reads) h in
        (ok changes, trail, record w { health = some h' })
  ]

  unfoldable pub set_health : Target → Bool → Handling RuntimeOverrideChange
  set_health target requested trail w = elim w.health [
    | none ↦ (raise value_error, trail, w)
    | some h ↦
        let (result, h') =
          set_runtime_override (env.clock w.reads) (target_name target) requested h in
        (result, trail, record w { health = some h' })
  ]

  unfoldable pub denied : String → String → Option Bool → Handling Text
  unfolding audit_bridge_override
  denied operation target requested =
      audit_bridge_override (override_denied operation target requested) >=> λ u.
      answer (codes "No autorizado.")

  unfoldable pub reset_overrides : Bool → Handling Text
  unfolding audit_changes reset_health
  reset_overrides compact =
      reset_health >=> λ changes. audit_changes changes >=> λ u. answer (reset_answer compact)

  unfoldable pub set_override : Bool → Target → Bool → Handling Text
  unfolding audit_bridge_override set_health
  set_override compact target requested = set_health target requested >=> λ c.
      audit_bridge_override
        (override_applied c.target c.previous_value c.new_value c.override_value)
      >=> λ u. answer (set_answer compact target requested)

  unfoldable pub fulfil : Bool → Role → Request → Handling Text
  unfolding denied reset_overrides set_override
  fulfil compact role reset_all =
      audit_bridge_override (override_requested "reset" "all" none) >=> λ u.
      if ltb (level role) (level admin) then denied "reset" "all" none else reset_overrides compact
  fulfil compact role (set_one target requested) =
      audit_bridge_override (override_requested "set" (target_name target) (some requested))
      >=> λ u.
          if ltb (level role) (level admin)
          then denied "set" (target_name target) (some requested)
          else set_override compact target requested
  fulfil compact role unusable = answer (usage_answer compact)

  -- `_handle_bridge_admin`
  unfoldable pub handle_bridge_admin : String → Role → List Text → Handling Text
  unfolding fulfil request_of
  handle_bridge_admin transport role args =
      fulfil (not (str_eq transport "telegram")) role (request_of args)
