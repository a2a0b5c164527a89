-- ===== src/Telegram/Forwarder/Quiet.antt =====
-- What of the forwarder posts nothing to the chat.
use meshcore_control_bridge.Common.{
  ℕ, ◌≡◌, refl, String, Bool, true, false, Option, none, some, List,
}
use meshcore_control_bridge.Python.{
  Exn, value_error, runtime_error, os_error, timeout_error, sqlite_locked, sqlite_error,
  integrity_error, telegram_api_error, http_error, cancelled, other, telegram_rate_limit_error,
  telegram_conflict_error, Result, ok, raise,
}
use meshcore_control_bridge.Text.Utf8.{Text}
use meshcore_control_bridge.Models.{InboundMessage}
use meshcore_control_bridge.World.Events.{AuditTrail, EventKind}
use meshcore_control_bridge.World.Exec.{
  World, Environment, Exec, pure, audit_write, record_event, store_write,
}
use meshcore_control_bridge.World.Grows.{Fixes, Fixes-bind, guarded_sqlite-Fixes}
use meshcore_control_bridge.Telegram.Store.{TelegramTables}
use meshcore_control_bridge.Telegram.Forwarder.{
  Forwarding, degrade_audit, degrade_telegram, audit_bridge, safe_create_bridge_record, ignore,
  keep_record, record_failed, fail, forwarded, after_post,
}

abbrev pub posted_of : World → List Text
posted_of w = w.posted

abbrev pub Quiet : {A : Type 0} → Exec A → Type 0
Quiet m = Fixes posted_of m

pub pure-Quiet : {A : Type 0} (a : A) → Quiet (pure a)
unfolding pure
pure-Quiet a = record { at = λ w. refl }

module _ (env : Environment) where
  record_event-Quiet :
      (kind : EventKind) (causation : Option ℕ) (correlation : String)
      → Quiet (record_event env kind causation correlation)
  unfolding record_event audit_write
  record_event-Quiet kind causation correlation = record {
    at = λ w. answered w (env.audit_fault w.reads);
  }
    where
      answered :
          (w : World) (fault : Option Exn)
          → (record_event
              (record env { audit_fault = λ n. fault })
              kind
              causation
              correlation
              w).1.posted
            ≡ w.posted
      answered w none = refl
      answered w (some e) = refl

  pub audit_bridge-Quiet :
      (enabled : Bool) (kind : EventKind) (causation : Option ℕ) (correlation : String)
      → Quiet (audit_bridge env enabled kind causation correlation)
  unfolding audit_bridge
  audit_bridge-Quiet false kind causation correlation = pure-Quiet none
  audit_bridge-Quiet true kind causation correlation =
      guarded_sqlite-Fixes posted_of _ _ _ (λ e w. unfold degrade_audit in refl)
        (Fixes-bind posted_of _ _ (record_event-Quiet kind causation correlation)
          λ id. pure-Quiet (some id))

  pub store_write-Quiet :
      {A : Type 0} (operation : ℕ → ℕ → TelegramTables → Result A × TelegramTables)
      → Quiet (store_write env operation)
  unfolding store_write
  store_write-Quiet operation = record { at = λ w. refl }

  safe_create_bridge_record-Quiet :
      (correlation transport room_id : String) (content_ref : Text) (size_bytes : ℕ)
      (status : String)
      → Quiet (
          safe_create_bridge_record env correlation transport room_id content_ref size_bytes status)
  unfolding safe_create_bridge_record
  safe_create_bridge_record-Quiet correlation transport room_id content_ref size_bytes status =
      guarded_sqlite-Fixes posted_of _ _ _ (λ e w. unfold degrade_telegram in refl)
        (Fixes-bind posted_of _ _ (store_write-Quiet _) λ r. pure-Quiet (some r))

  module _ (config : Forwarding) (message : InboundMessage) (trail : Option AuditTrail)
      (received : Option ℕ) where
    pub ignore-Quiet :
        (reason : String) (size_bytes : ℕ) (truncated : Bool)
        → Quiet (ignore env config message trail received reason size_bytes truncated)
    unfolding ignore
    ignore-Quiet reason size_bytes truncated =
        Fixes-bind posted_of _ _ (audit_bridge-Quiet config.audit _ received _)
          λ id. pure-Quiet true

    pub keep_record-Quiet :
        (content : Text) (size_bytes : ℕ) (status : String)
        → Quiet (keep_record env config message trail received content size_bytes status)
    unfolding keep_record
    keep_record-Quiet content size_bytes status = safe_create_bridge_record-Quiet _ _ _ _ _ _

    fail-Quiet :
        (body : Text) (size_bytes : ℕ) (truncated : Bool) (reason : String)
        → Quiet (fail env config message trail received body size_bytes truncated reason)
    unfolding fail record_failed
    fail-Quiet body size_bytes truncated reason = record {
      at = λ w.
          (Fixes-bind posted_of _ _ (audit_bridge-Quiet config.audit _ received _) λ id.
              Fixes-bind posted_of _ _ (keep_record-Quiet body size_bytes "failed")
                λ r. pure-Quiet true).at
            _;
    }

    forwarded-Quiet :
        (body : Text) (size_bytes : ℕ) (truncated : Bool)
        → Quiet (forwarded env config message trail received body size_bytes truncated)
    unfolding forwarded
    forwarded-Quiet body size_bytes truncated =
        Fixes-bind posted_of _ _ (audit_bridge-Quiet config.audit _ received _) λ id.
          Fixes-bind posted_of _ _ (keep_record-Quiet body size_bytes "accepted_by_telegram")
            λ r. record { at = λ w. refl }

    pub after_post-quiet :
        (body : Text) (size_bytes : ℕ) (truncated : Bool) (r : Result (Unit {0})) (w : World)
        → (after_post env config message trail received body size_bytes truncated (r, w)).1.posted
          ≡ w.posted
    unfolding after_post
    after_post-quiet body size_bytes truncated (ok u) w =
        (forwarded-Quiet body size_bytes truncated).at w
    after_post-quiet body size_bytes truncated (raise (telegram_rate_limit_error n)) w =
        (fail-Quiet body size_bytes truncated "rate_limited").at w
    after_post-quiet body size_bytes truncated (raise telegram_conflict_error) w =
        (fail-Quiet body size_bytes truncated "consumer_conflict").at w
    after_post-quiet body size_bytes truncated (raise value_error) w = refl
    after_post-quiet body size_bytes truncated (raise runtime_error) w = refl
    after_post-quiet body size_bytes truncated (raise os_error) w =
        (fail-Quiet body size_bytes truncated "transport_error").at w
    after_post-quiet body size_bytes truncated (raise timeout_error) w =
        (fail-Quiet body size_bytes truncated "transport_error").at w
    after_post-quiet body size_bytes truncated (raise sqlite_locked) w = refl
    after_post-quiet body size_bytes truncated (raise sqlite_error) w = refl
    after_post-quiet body size_bytes truncated (raise integrity_error) w = refl
    after_post-quiet body size_bytes truncated (raise telegram_api_error) w =
        (fail-Quiet body size_bytes truncated "transport_error").at w
    after_post-quiet body size_bytes truncated (raise http_error) w =
        (fail-Quiet body size_bytes truncated "transport_error").at w
    after_post-quiet body size_bytes truncated (raise cancelled) w = refl
    after_post-quiet body size_bytes truncated (raise (other name)) w = refl
