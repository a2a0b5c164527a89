-- ===== src/Health/Publisher.antt =====
-- homeassistant_health_events.py: `HomeAssistantHealthEventPublisher`, with the payload and the
-- fingerprint of bridge_health.py.
pub mod Laws
use meshcore_control_bridge.Common.{
  ℕ, String, Bool, true, false, not, ◌&&◌, ◌||◌, Option, none, some, List, [], ◌∷◌, ◌++◌,
  if◌then◌else◌,
}
use meshcore_control_bridge.Python.{Exn, is_exception, Result, ok, raise}
use meshcore_control_bridge.Text.Utf8.{Text}
use meshcore_control_bridge.Dedup.{text_eq}
use meshcore_control_bridge.Health.Snapshot.{BridgeHealthSnapshot, telegram_state, status}
use meshcore_control_bridge.Health.State.{BridgeHealthState, snapshot}
use meshcore_control_bridge.Health.Ops.{record_failure, set_change_callback}

-- The fields of `event_payload`; the fingerprint has no uptime.
pub record EventPayload : Type 0 where
  pub status : String
  pub version : String
  pub uptime_seconds : Option ℕ
  pub meshcore : String
  pub telegram : String
  pub channel : ℕ
  pub forwarding : Bool × Bool × Bool
  pub runtime_overrides : Option Bool × Option Bool × Option Bool
  pub database : String × String
  pub counters : List ℕ
  pub last_activity : Option ℕ × Option ℕ
  pub last_error : Option ℕ × String

unfoldable pub event_payload : ℕ → BridgeHealthSnapshot → EventPayload
event_payload channel_index s = record {
  status = status s;
  version = s.version;
  uptime_seconds = some s.uptime_seconds;
  meshcore = s.meshcore_transport_state;
  telegram = telegram_state s;
  channel = channel_index;
  forwarding = (
    s.forward_telegram_to_meshcore, s.forward_meshcore_to_telegram, s.forward_confirmation_enabled,
  );
  runtime_overrides =
      (s.override_telegram_to_meshcore, s.override_meshcore_to_telegram, s.override_confirmation);
  database = (s.audit_db_health, s.telegram_db_health);
  counters =
      s.tg_to_mc_success ∷ s.tg_to_mc_failed ∷ s.mc_to_tg_success ∷ s.mc_to_tg_failed
      ∷ s.commands_processed ∷ [];
  last_activity = (s.last_tg_to_mc, s.last_mc_to_tg);
  last_error = (s.last_failure, s.last_failure_reason);
}

-- The publisher with the health that it watches. `changed` is the event that wakes its task, and
-- `fired` what Home Assistant has accepted, oldest first.
pub record Publisher : Type 0 where
  pub health : BridgeHealthState
  pub channel_index : ℕ
  pub enabled : Bool
  pub running : Bool
  pub changed : Bool
  pub critical : Bool
  pub stopped : Bool
  pub published_fingerprint : Option Text
  pub fired : List EventPayload

-- `_mark_changed`
unfoldable pub mark_changed : Bool → Publisher → Publisher
mark_changed critical p =
    if p.stopped then p else record p { critical = critical || p.critical; changed = true }

-- `notify`, whose call of the loop runs at once
unfoldable pub notify : Bool → Publisher → Publisher
unfolding mark_changed
notify critical p =
    if not p.enabled || p.stopped || not p.running then p else mark_changed critical p

-- `start`
unfoldable pub start : Publisher → Publisher
unfolding notify
start p =
    if not p.enabled
    then p
    else if p.running
    then p
    else notify true (record p { running = true; health = set_change_callback true p.health })

-- `stop`
unfoldable pub stop : Publisher → Publisher
stop p = record p {
  stopped = true;
  changed = true;
  running = false;
  health = set_change_callback false p.health;
}

-- The notifications that an operation of the health has added, delivered to the publisher.
unfoldable pub deliver_all : List Bool → Publisher → Publisher
unfolding notify
deliver_all [] p = p
deliver_all (critical ∷ flags) p = deliver_all flags (notify critical p)

abbrev pub added : {A : Type 0} → List A → List A → List A
added [] after = after
added (x ∷ before) [] = []
added (x ∷ before) (y ∷ after) = added before after

-- An operation of the health, whose callback is `notify`.
unfoldable pub change_health : (BridgeHealthState → BridgeHealthState) → Publisher → Publisher
unfolding deliver_all
change_health change p =
    deliver_all (added p.health.notified (change p.health).notified)
      (record p { health = change p.health })

-- The JSON text of a payload is a parameter.
module _ (encode : EventPayload → Text) where
  -- `event_fingerprint`
  unfoldable pub event_fingerprint : ℕ → BridgeHealthSnapshot → Text
  unfolding event_payload
  event_fingerprint channel_index s =
      encode (record (event_payload channel_index s) { uptime_seconds = none })

  abbrev pub is_published : Text → Option Text → Bool
  is_published fingerprint none = false
  is_published fingerprint (some published) = text_eq fingerprint published

  -- Behind `client.fire_event`. `_publishing_degraded` is always false when it is read, as no other
  -- task runs while it is set.
  abbrev pub after_fire : ℕ → Text → EventPayload → Option Exn → Publisher → Result Bool × Publisher
  after_fire now fingerprint payload none p = (
    ok true,
    record p { published_fingerprint = some fingerprint; fired = p.fired ++ payload ∷ [] },
  )
  after_fire now fingerprint payload (some e) p =
      if is_exception e
      then (ok false, change_health (record_failure now "transport_error") p)
      else (raise e, p)

  -- `publish_if_needed`, at a time and with the fault of Home Assistant, if there is one
  unfoldable pub publish_if_needed : ℕ → Option Exn → Bool → Publisher → Result Bool × Publisher
  unfolding event_fingerprint change_health
  publish_if_needed now fault force p =
      let s = snapshot now p.health in
      let fingerprint = event_fingerprint p.channel_index s in
      if not force && is_published fingerprint p.published_fingerprint
      then (ok false, p)
      else after_fire now fingerprint (event_payload p.channel_index s) fault p
