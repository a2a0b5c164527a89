-- ===== src/Telegram/Service/Sent.antt =====
-- What an update of Telegram sends to MeshCore, and which command it runs.
use meshcore_control_bridge.Common.{
  ℕ, suc, ◌≡◌, refl, sym, ap, Bool, true, false, Bool-cases, Option, none, some, inl, inr, [],
  if◌then◌else◌,
}
use meshcore_control_bridge.Python.{Exn}
use meshcore_control_bridge.Text.Utf8.{Text}
use meshcore_control_bridge.Models.{InboundMessage, OutboundMessage}
use meshcore_control_bridge.World.Exec.{World, Environment, send, accept}
use meshcore_control_bridge.World.Grows.{
  AtMostOne, AtMostOne-same, Fixes-bind, Grows, Grows-fixed, Grows-if, Grows-after, Grows-weaken,
  sent_of,
}
use meshcore_control_bridge.World.Views.{GrowsBy, GrowsBy-after, AtMostOne-weaken}
use meshcore_control_bridge.Telegram.Render.{ForwardRenderResult}
use meshcore_control_bridge.Telegram.Service.{Externals, TelegramService, Received}
use meshcore_control_bridge.Telegram.Service.Outside.{
  audit_bridge-Outside, inbound_message-Outside, settle-Outside,
}
use meshcore_control_bridge.Telegram.Service.Traffic.{
  is_on_of, is_on-IsOutside, sent-IsOutside, sent-IsTraffic, audit_text-Traffic,
  record_text-Traffic, confirmed-Traffic, fail_text-Traffic, after_send_text-traffic,
  admit_text-Traffic,
}
use meshcore_control_bridge.Telegram.Service.Forwarding.{
  rendered_update, fail_text, after_send_text, outbound_text, send_text, limit_text, forward_update,
  forward_received, process_forward_update,
}

module _ {H : Type 0} (env : Environment) (python : Externals) (service : TelegramService H) where
  -- What holds of a text that is sent to the channel.
  pub record IsBridged (rendered : Option Text) (is_on : Bool) (outbound : OutboundMessage)
      : Type 0 where
    pub body : rendered ≡ some outbound.body
    pub on : is_on ≡ true
    pub channel : outbound.channel_index ≡ service.channel_index
    pub transport : service.has_transport ≡ true

  -- the same, before the state of the direction is known
  abbrev Sendable : Text → OutboundMessage → Type 0
  Sendable body outbound =
      (outbound.body ≡ body)
      × (outbound.channel_index ≡ service.channel_index)
      × (service.has_transport ≡ true)

  module _ (update : Received) (message : InboundMessage) (received : Option ℕ) where
    accepted :
        (has : service.has_transport ≡ true) (fault : Option Exn) (body : Text) (w : World)
        → AtMostOne
            (Sendable body)
            w.sent
            (accept fault (outbound_text env python service update message received body) w).1.sent
    unfolding outbound_text
    accepted has none body w = inr (_, refl, (refl, refl, has))
    accepted has (some e) body w = inl refl

    send_text-sent :
        (body : Text) (size_bytes : ℕ) (truncated : Bool)
        → Grows sent_of
            (Sendable body)
            (send_text env python service update message received body size_bytes truncated)
    unfolding send_text send
    send_text-sent body size_bytes truncated = record {
      at = λ w. chosen w service.has_transport refl;
    }
      where
        chosen :
            (w : World) (has : Bool)
            → service.has_transport ≡ has
            → AtMostOne
                (Sendable body)
                w.sent
                (if has
                  then after_send_text env python service update message received body size_bytes
                      truncated
                      (send env (outbound_text env python service update message received body) w)
                  else fail_text env python service update message received body size_bytes
                      truncated "transport_unavailable" w).1.sent
        chosen w false has = inl (
            (fail_text-Traffic sent-IsTraffic env python service update message received body
                size_bytes truncated "transport_unavailable").at
              w)
        chosen w true has =
            AtMostOne-same (Sendable body)
              (after_send_text-traffic sent-IsTraffic env python service update message received
                body size_bytes truncated _ _)
              (accepted has (env.send_fault w.reads) body (record w { reads = suc w.reads }))

    limit_text-sent :
        (body : Text) (size_bytes : ℕ) (truncated : Bool)
        → Grows sent_of
            (Sendable body)
            (limit_text env python service update message received body size_bytes truncated)
    unfolding limit_text
    limit_text-sent body size_bytes truncated =
        Grows-after sent_of _ _ _
          (admit_text-Traffic sent-IsTraffic env python service update message received)
          λ allowed. Grows-if sent_of _ allowed _ _ (send_text-sent body size_bytes truncated) (
            Grows-fixed sent_of _ _ (
              Fixes-bind sent_of _ _
                (audit_text-Traffic sent-IsTraffic env python service update message received _)
                λ id.
                  Fixes-bind sent_of _ _
                    (record_text-Traffic sent-IsTraffic env python service update message received
                      body size_bytes "dropped")
                    λ r.
                      confirmed-Traffic sent-IsTraffic env python service update message received _
                        _ _))

    forward_update-sent :
        (rendered : Option Text) (truncated : Bool)
        → Grows sent_of
            (λ x.
              (rendered ≡ some x.body)
              × (x.channel_index ≡ service.channel_index)
              × (service.has_transport ≡ true))
            (forward_update env python service update message received rendered truncated)
    unfolding forward_update
    forward_update-sent none truncated = Grows-fixed sent_of _ _ (
        Fixes-bind sent_of _ _
          (audit_text-Traffic sent-IsTraffic env python service update message received _)
          λ id.
            Fixes-bind sent_of _ _
              (record_text-Traffic sent-IsTraffic env python service update message received [] 0
                "dropped")
              λ r. settle-Outside sent-IsOutside env _ _ update _)
    forward_update-sent (some body) truncated =
        Grows-weaken sent_of _ _ _ (λ x s. (ap some (sym s.0), s.1, s.2))
          (limit_text-sent body _ truncated)

    forward_received-sent :
        (rendered : ForwardRenderResult)
        → GrowsBy
            (is_on_of service)
            sent_of
            (IsBridged rendered.text)
            (forward_received env python service update message received rendered)
    unfolding forward_received
    forward_received-sent rendered = record {
      at = λ w. elim (Bool-cases (is_on_of service w)) [
        | inr off ↦ rw off (
            inl (
              (Fixes-bind sent_of _ _
                  (audit_text-Traffic sent-IsTraffic env python service update message received _)
                  λ id.
                    confirmed-Traffic sent-IsTraffic env python service update message received _ _
                      _).at
                w))
        | inl on ↦ rw on (
            AtMostOne-weaken _ _
              (λ x s. record { body = s.0; on = refl; channel = s.1; transport = s.2 })
              ((forward_update-sent rendered.text rendered.truncated).at w))
      ];
    }

  pub process_forward_update-sent :
      (update : Received) (body : Text)
      → GrowsBy
          (is_on_of service)
          sent_of
          (IsBridged (rendered_update env python service body).text)
          (process_forward_update env python service update body)
  unfolding process_forward_update
  process_forward_update-sent update body =
      GrowsBy-after _ _ _ _ _
        (inbound_message-Outside (is_on-IsOutside service) env python service update _)
        (inbound_message-Outside sent-IsOutside env python service update _)
        λ message.
          GrowsBy-after _ _ _ _ _ (audit_bridge-Outside (is_on-IsOutside service) env _ _ _ _)
            (audit_bridge-Outside sent-IsOutside env _ _ _ _)
            λ received. forward_received-sent update message received _
