-- ===== src/Telegram/Service/Traffic.antt =====
-- What forwarding an update leaves alone, whatever the chat and the transport answer.
use meshcore_control_bridge.Common.{
  ℕ, suc, ◌≡◌, refl, ◌∙◌, String, Bool, true, false, Bool-cases, Option, none, some, inl, inr, List,
  if◌then◌else◌,
}
use meshcore_control_bridge.Python.{Exn, Result, ok, raise, is_exception, is_transport_error}
use meshcore_control_bridge.Text.Utf8.{Text}
use meshcore_control_bridge.Models.{InboundMessage}
use meshcore_control_bridge.RateLimit.{RateLimiter}
use meshcore_control_bridge.Health.State.{BridgeHealthState, after_change, record_failure_locked}
use meshcore_control_bridge.Health.Ops.{set_audit_db_health, set_telegram_db_health}
use meshcore_control_bridge.World.Exec.{World, Environment, post, accept_post}
use meshcore_control_bridge.World.Grows.{Fixes, Fixes-bind, sent_of, handled_of}
use meshcore_control_bridge.Telegram.Forwarder.{sqlite_reason, degrade_audit, degrade_telegram}
use meshcore_control_bridge.Telegram.Service.{
  Externals, TelegramService, Received, forgive_transport, send_forward_confirmation,
}
use meshcore_control_bridge.Telegram.Service.Outside.{
  IsOutside, pure-Outside, settle-Outside, audit_bridge-Outside, safe_create_bridge_record-Outside,
}
use meshcore_control_bridge.Telegram.Service.Forwarding.{
  effective_to_meshcore, effective_confirmation, meshcore_forward_success_text, audit_text,
  record_text, settle_and_confirm, record_forward_failure, fail_text, confirm_success,
  count_success, forwarded_text, after_send_text, admit_text,
}

-- Whether the direction to MeshCore is on.
abbrev pub is_on_of : {H : Type 0} → TelegramService H → World → Bool
is_on_of service w = effective_to_meshcore service.forward w.health

pub sent-IsOutside : IsOutside sent_of
unfolding degrade_audit degrade_telegram
sent-IsOutside = record {
  reads = λ n w. refl;
  events = λ es w. refl;
  tables = λ t w. refl;
  audit = λ env e w. refl;
  telegram = λ env e w. refl;
}

pub handled-IsOutside : IsOutside handled_of
unfolding degrade_audit degrade_telegram
handled-IsOutside = record {
  reads = λ n w. refl;
  events = λ es w. refl;
  tables = λ t w. refl;
  audit = λ env e w. refl;
  telegram = λ env e w. refl;
}

module _ {H : Type 0} (service : TelegramService H) where
  on_health-on :
      (change : BridgeHealthState → BridgeHealthState) (h : Option BridgeHealthState)
      → ((s : BridgeHealthState)
          → effective_to_meshcore service.forward (some (change s))
            ≡ effective_to_meshcore service.forward (some s))
      → effective_to_meshcore service.forward (elim h [ none ↦ none | some s ↦ some (change s) ])
        ≡ effective_to_meshcore service.forward h
  on_health-on change none p = refl
  on_health-on change (some s) p = p s

  pub is_on-IsOutside : IsOutside (is_on_of service)
  unfolding degrade_audit degrade_telegram set_audit_db_health set_telegram_db_health after_change
      record_failure_locked
  is_on-IsOutside = record {
    reads = λ n w. refl;
    events = λ es w. refl;
    tables = λ t w. refl;
    audit = λ env e w.
        on_health-on (set_audit_db_health (env.clock w.reads) "degraded" (some (sqlite_reason e)))
          w.health λ s. refl;
    telegram = λ env e w.
        on_health-on
          (set_telegram_db_health (env.clock w.reads) "degraded" (some (sqlite_reason e))) w.health
          λ s. refl;
  }

-- A part of the state that neither the chat, nor the health, nor the limiter writes.
pub record IsTraffic {X : Type 0} (part : World → X) : Type 0 where
  pub outside : IsOutside part
  pub posted : (ps : List Text) (w : World) → part (record w { posted = ps }) ≡ part w
  pub health : (h : Option BridgeHealthState) (w : World) → part (record w { health = h }) ≡ part w
  pub limiter : (l : RateLimiter) (w : World) → part (record w { outbound_limiter = l }) ≡ part w

pub sent-IsTraffic : IsTraffic sent_of
sent-IsTraffic = record {
  outside = sent-IsOutside;
  posted = λ ps w. refl;
  health = λ h w. refl;
  limiter = λ l w. refl;
}

pub handled-IsTraffic : IsTraffic handled_of
handled-IsTraffic = record {
  outside = handled-IsOutside;
  posted = λ ps w. refl;
  health = λ h w. refl;
  limiter = λ l w. refl;
}

module _ {X : Type 0} {part : World → X} (traffic : IsTraffic part) (env : Environment) where
  pub post-Traffic : (body : Text) → Fixes part (post env body)
  unfolding post
  post-Traffic body = record { at = λ w. answered w (env.chat_fault w.reads) }
    where
      answered :
          (w : World) (fault : Option Exn)
          → part (accept_post fault body (record w { reads = suc w.reads })).1 ≡ part w
      answered w none =
          traffic.posted _ (record w { reads = suc w.reads }) ∙ traffic.outside.reads _ w
      answered w (some e) = traffic.outside.reads _ w

  forgiven : (r : Result (Unit {0})) (w : World) → part (forgive_transport (r, w)).1 ≡ part w
  forgiven (ok u) w = refl
  forgiven (raise e) w = elim (Bool-cases (is_transport_error e)) [
    | inl passes ↦ rw passes refl
    | inr raises ↦ rw raises refl
  ]

  confirmation-Traffic : (body : Text) → Fixes part (send_forward_confirmation env body)
  unfolding send_forward_confirmation
  confirmation-Traffic body = record {
    at = λ w. forgiven (post env body w).0 (post env body w).1 ∙ (post-Traffic body).at w;
  }

  module _ {H : Type 0} (python : Externals) (service : TelegramService H) (update : Received)
      (message : InboundMessage) (received : Option ℕ) where
    pub confirmed-Traffic :
        (event_type reason : String) (body : Text)
        → Fixes part
            (settle_and_confirm env python service update message received event_type reason body)
    unfolding settle_and_confirm
    confirmed-Traffic event_type reason body =
        Fixes-bind part _ _ (settle-Outside traffic.outside env event_type reason update _) λ d.
          Fixes-bind part _ _ (confirmation-Traffic body) λ u. pure-Outside traffic.outside env d

    pub audit_text-Traffic :
        (kind : _) → Fixes part (audit_text env python service update message received kind)
    unfolding audit_text
    audit_text-Traffic kind = audit_bridge-Outside traffic.outside env _ _ _ _

    pub record_text-Traffic :
        (content : Text) (size_bytes : ℕ) (status : String)
        → Fixes part
            (record_text env python service update message received content size_bytes status)
    unfolding record_text
    record_text-Traffic content size_bytes status =
        safe_create_bridge_record-Outside traffic.outside env _ _ _ _ _ _

    pub fail_text-Traffic :
        (body : Text) (size_bytes : ℕ) (truncated : Bool) (reason : String)
        → Fixes part
            (fail_text env python service update message received body size_bytes truncated reason)
    unfolding fail_text record_forward_failure
    fail_text-Traffic body size_bytes truncated reason = record {
      at = λ w.
          (Fixes-bind part _ _
              (Fixes-bind part _ _ (audit_text-Traffic _) λ id.
                Fixes-bind part _ _ (record_text-Traffic body size_bytes "failed")
                  λ r. pure-Outside traffic.outside env tt)
              λ u. confirmed-Traffic _ _ _).at
            _
          ∙ traffic.health _ w;
    }

    forwarded_text-Traffic :
        (body : Text) (size_bytes : ℕ) (truncated : Bool)
        → Fixes part
            (forwarded_text env python service update message received body size_bytes truncated)
    unfolding forwarded_text count_success confirm_success
    forwarded_text-Traffic body size_bytes truncated =
        Fixes-bind part _ _ (audit_text-Traffic _) λ id.
          Fixes-bind part _ _ (record_text-Traffic body size_bytes _) λ r.
            Fixes-bind part _ _ (record { at = λ w. traffic.health _ w })
              λ u. Fixes-bind part _ _ (settle-Outside traffic.outside env _ _ update _) λ d.
                Fixes-bind part _ _ (record { at = confirms })
                  λ c. pure-Outside traffic.outside env d
      where
        chosen :
            (b : Bool) (w : World)
            → part
                (if b
                  then send_forward_confirmation env meshcore_forward_success_text w
                  else (ok tt, w)).1
              ≡ part w
        chosen true w = (confirmation-Traffic _).at w
        chosen false w = refl

        confirms :
            (w : World)
            → part (confirm_success env python service update message received w).1 ≡ part w
        confirms w = chosen (effective_confirmation service.confirm w.health) w

    pub after_send_text-traffic :
        (body : Text) (size_bytes : ℕ) (truncated : Bool) (r : Result (Unit {0})) (w : World)
        → part
            (after_send_text env python service update message received body size_bytes truncated
              (r, w)).1
          ≡ part w
    unfolding after_send_text
    after_send_text-traffic body size_bytes truncated (ok u) w =
        (forwarded_text-Traffic body size_bytes truncated).at w
    after_send_text-traffic body size_bytes truncated (raise e) w =
        elim (Bool-cases (is_exception e)) [
          | inl caught ↦
              rw caught ((fail_text-Traffic body size_bytes truncated "transport_error").at w)
          | inr passed ↦ rw passed refl
        ]

    pub admit_text-Traffic : Fixes part (admit_text env python service update message received)
    unfolding admit_text
    admit_text-Traffic = record { at = λ w. traffic.limiter _ w }
