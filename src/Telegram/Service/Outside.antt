-- ===== src/Telegram/Service/Outside.antt =====
-- The records that an update leaves (audit, deduplication, bridge records) do not reach a part of the
-- state that they do not write.
use meshcore_control_bridge.Common.{
  ℕ, suc, ◌≡◌, refl, ◌∙◌, String, Bool, true, false, not, Option, none, some, List,
}
use meshcore_control_bridge.Python.{
  Exn, value_error, runtime_error, os_error, timeout_error, sqlite_locked, sqlite_error,
  integrity_error, telegram_api_error, http_error, cancelled, other, telegram_rate_limit_error,
  telegram_conflict_error, Result, ok, raise,
}
use meshcore_control_bridge.Text.Utf8.{Text}
use meshcore_control_bridge.Models.{InboundMessage, OutboundMessage, MessageIdentity}
use meshcore_control_bridge.World.Events.{Event, EventKind, AuditTrail}
use meshcore_control_bridge.World.Exec.{
  World, Environment, Exec, ◌>>=◌, pure, throw, audit_write, record_event, store_write,
}
use meshcore_control_bridge.World.Grows.{Fixes, Fixes-if, Fixes-bind, guarded_sqlite-Fixes}
use meshcore_control_bridge.Audit.{
  correlated, degraded_trail, received, record_normalized, sent_event, failed_event,
}
use meshcore_control_bridge.Telegram.Store.{TelegramTables}
use meshcore_control_bridge.Telegram.Forwarder.{
  degrade_audit, degrade_telegram, audit_bridge, safe_create_bridge_record,
}
use meshcore_control_bridge.Telegram.Service.{
  Externals, TelegramService, Received, recover_received, audit_update, settle,
  seen_or_store_update, inbound_message, message_received, some_trail,
}

-- A part of the state that no such record writes.
pub record IsOutside {X : Type 0} (part : World → X) : Type 0 where
  pub reads : (n : ℕ) (w : World) → part (record w { reads = n }) ≡ part w
  pub events : (es : List Event) (w : World) → part (record w { events = es }) ≡ part w
  pub tables : (t : TelegramTables) (w : World) → part (record w { telegram = t }) ≡ part w
  pub audit : (env : Environment) (e : Exn) (w : World) → part (degrade_audit env e w) ≡ part w
  pub telegram :
      (env : Environment) (e : Exn) (w : World) → part (degrade_telegram env e w) ≡ part w

module _ {X : Type 0} {part : World → X} (outside : IsOutside part) (env : Environment) where
  pub pure-Outside : {A : Type 0} (a : A) → Fixes part (pure a)
  unfolding pure
  pure-Outside a = record { at = λ w. refl }

  pub throw-Outside : {A : Type 0} (e : Exn) → Fixes part (throw {A = A} e)
  unfolding throw
  throw-Outside e = record { at = λ w. refl }

  pub bind-Outside :
      {A B : Type 0} (m : Exec A) (f : A → Exec B)
      → Fixes part m
      → ((a : A) → Fixes part (f a))
      → Fixes part (m >>= f)
  bind-Outside m f p q = Fixes-bind part m f p q

  pub record_event-Outside :
      (kind : EventKind) (causation : Option ℕ) (correlation : String)
      → Fixes part (record_event env kind causation correlation)
  unfolding record_event audit_write
  record_event-Outside kind causation correlation = record {
    at = λ w. answered w (env.audit_fault w.reads);
  }
    where
      answered :
          (w : World) (fault : Option Exn)
          → part
              (record_event
                (record env { audit_fault = λ n. fault })
                kind
                causation
                correlation
                w).1
            ≡ part w
      answered w none = outside.events _ (record w { reads = suc w.reads }) ∙ outside.reads _ w
      answered w (some e) = outside.reads _ w

  pub store_write-Outside :
      {A : Type 0} (operation : ℕ → ℕ → TelegramTables → Result A × TelegramTables)
      → Fixes part (store_write env operation)
  unfolding store_write
  store_write-Outside operation = record {
    at = λ w. outside.tables _ (record w { reads = suc w.reads }) ∙ outside.reads _ w;
  }

  pub audit_bridge-Outside :
      (enabled : Bool) (kind : EventKind) (causation : Option ℕ) (correlation : String)
      → Fixes part (audit_bridge env enabled kind causation correlation)
  unfolding audit_bridge
  audit_bridge-Outside false kind causation correlation = pure-Outside none
  audit_bridge-Outside true kind causation correlation =
      guarded_sqlite-Fixes part _ _ _ (outside.audit env) (
        bind-Outside _ _ (record_event-Outside kind causation correlation)
          λ id. pure-Outside (some id))

  pub safe_create_bridge_record-Outside :
      (correlation transport room_id : String) (content_ref : Text) (size_bytes : ℕ)
      (status : String)
      → Fixes part (
          safe_create_bridge_record env correlation transport room_id content_ref size_bytes status)
  unfolding safe_create_bridge_record
  safe_create_bridge_record-Outside correlation transport room_id content_ref size_bytes status =
      guarded_sqlite-Fixes part _ _ _ (outside.telegram env)
        (bind-Outside _ _ (store_write-Outside _) λ r. pure-Outside (some r))

  pub settle-Outside :
      (event_type reason : String) (update : Received) (message_type : Option String)
      → Fixes part (settle env event_type reason update message_type)
  unfolding settle audit_update
  settle-Outside event_type reason update message_type =
      bind-Outside _ _
        (guarded_sqlite-Fixes part _ _ _ (outside.telegram env) (store_write-Outside _))
        λ done. pure-Outside _

  pub correlated-Outside : (message : InboundMessage) → Fixes part (correlated message)
  unfolding correlated
  correlated-Outside message = identified message.message
    where
      identified :
          (o : Option MessageIdentity)
          → Fixes part {A = String}
              (elim o [ none ↦ throw value_error | some i ↦ pure i.correlation_id ])
      identified none = throw-Outside value_error
      identified (some i) = pure-Outside i.correlation_id

  module _ (enabled : Bool) where
    pub record_normalized-Outside :
        (trail : AuditTrail) (kind : EventKind) (causation : Option ℕ)
        → Fixes part (record_normalized env enabled trail kind causation)
    unfolding record_normalized
    record_normalized-Outside trail kind causation =
        Fixes-if part (not enabled) _ _ (pure-Outside trail)
          (bind-Outside _ _ (record_event-Outside _ _ _) λ id. pure-Outside _)

    pub sent_event-Outside :
        (trail : AuditTrail) (outbound : OutboundMessage)
        → Fixes part (sent_event env enabled trail outbound)
    unfolding sent_event
    sent_event-Outside trail outbound = record_normalized-Outside trail _ _

    pub failed_event-Outside : (trail : AuditTrail) → Fixes part (failed_event env enabled trail)
    unfolding failed_event
    failed_event-Outside trail = record_normalized-Outside trail _ _

    degraded_trail-Outside :
        (message : InboundMessage) → Fixes part (degraded_trail env enabled message)
    unfolding degraded_trail
    degraded_trail-Outside message =
        bind-Outside _ _ (correlated-Outside message) λ c. pure-Outside _

    received-Outside : (message : InboundMessage) → Fixes part (received env enabled message)
    unfolding received
    received-Outside message = bind-Outside _ _ (correlated-Outside message) λ c.
        Fixes-if part (not enabled) _ _ (pure-Outside _)
          (bind-Outside _ _ (record_event-Outside _ _ _) λ id. pure-Outside _)

    recovered-Outside :
        {A : Type 0} (fallback : Exec A)
        → Fixes part fallback
        → (r : Result A) (w : World) → part (recover_received env fallback (r, w)).1 ≡ part w
    recovered-Outside fallback p (ok a) w = refl
    recovered-Outside fallback p (raise runtime_error) w = p.at w
    recovered-Outside fallback p (raise value_error) w = refl
    recovered-Outside fallback p (raise os_error) w = refl
    recovered-Outside fallback p (raise timeout_error) w = refl
    recovered-Outside fallback p (raise sqlite_locked) w =
        p.at _ ∙ outside.audit env sqlite_locked w
    recovered-Outside fallback p (raise sqlite_error) w = p.at _ ∙ outside.audit env sqlite_error w
    recovered-Outside fallback p (raise integrity_error) w =
        p.at _ ∙ outside.audit env integrity_error w
    recovered-Outside fallback p (raise telegram_api_error) w = refl
    recovered-Outside fallback p (raise telegram_conflict_error) w = refl
    recovered-Outside fallback p (raise (telegram_rate_limit_error n)) w = refl
    recovered-Outside fallback p (raise http_error) w = refl
    recovered-Outside fallback p (raise cancelled) w = refl
    recovered-Outside fallback p (raise (other name)) w = refl

  module _ {H : Type 0} (python : Externals) (service : TelegramService H) where
    pub inbound_message-Outside :
        (update : Received) (body : Text)
        → Fixes part (inbound_message env python service update body)
    unfolding inbound_message
    inbound_message-Outside update body = record { at = λ w. outside.reads _ w }

    pub seen_or_store_update-Outside :
        (update_id : ℕ) → Fixes part (seen_or_store_update env python service update_id)
    unfolding seen_or_store_update
    seen_or_store_update-Outside update_id =
        guarded_sqlite-Fixes part _ _ _ (outside.telegram env) (store_write-Outside _)

    trail-Outside :
        (r : Result AuditTrail) (w : World) → part (some_trail env python service (r, w)).1 ≡ part w
    trail-Outside (ok trail) w = refl
    trail-Outside (raise e) w = refl

    pub message_received-Outside :
        (message : InboundMessage) → Fixes part (message_received env python service message)
    unfolding message_received
    message_received-Outside message = record { at = λ w. flowing w service.audit_flow }
      where
        flowing :
            (w : World) (flow : Option Bool)
            → part (message_received env python (record service { audit_flow = flow }) message w).1
              ≡ part w
        flowing w none = refl
        flowing w (some enabled) =
            trail-Outside
              (recover_received env (degraded_trail env enabled message)
                (received env enabled message w)).0
              _
            ∙ recovered-Outside enabled _ (degraded_trail-Outside enabled message)
                (received env enabled message w).0 _
            ∙ (received-Outside enabled message).at w
