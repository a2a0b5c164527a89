-- ===== src/Telegram/Service/Effects.antt =====
-- The effects of an update of Telegram: the commands that run and the texts that go to MeshCore.
use meshcore_control_bridge.Common.{
  ℕ, suc, ◌≡◌, refl, ◌∙◌, Bool, true, false, Option, none, some, inl, inr, [], if◌then◌else◌,
}
use meshcore_control_bridge.Python.{Exn}
use meshcore_control_bridge.Text.Utf8.{Text}
use meshcore_control_bridge.Text.Space.{strip}
use meshcore_control_bridge.Models.{InboundMessage, OutboundMessage}
use meshcore_control_bridge.Commands.Parser.{starts_with}
use meshcore_control_bridge.World.Events.{EventKind}
use meshcore_control_bridge.World.Exec.{World, Environment, Exec, ◌>>=◌, send, accept}
use meshcore_control_bridge.World.Grows.{
  AtMostOne, Fixes, Fixes-bind, Fixes-if, sent_of, handled_of,
}
use meshcore_control_bridge.World.Views.{GrowsBy-fixed, GrowsBy-plain, AtMostOne-weaken}
use meshcore_control_bridge.Telegram.Render.{ForwardRenderResult}
use meshcore_control_bridge.Telegram.Update.{Fields}
use meshcore_control_bridge.Telegram.Service.{
  Externals, TelegramService, Received, TelegramUpdateDecision,
}
use meshcore_control_bridge.Telegram.Service.Forwarding.{
  effective_to_meshcore, audit_text, rendered_update, outbound_text, send_text, after_send_text,
  fail_text, limit_text, forward_update, forward_received, process_forward_update,
}
use meshcore_control_bridge.Telegram.Service.Updates.{process_update}
use meshcore_control_bridge.Telegram.Service.Outside.{
  settle-Outside, inbound_message-Outside, audit_bridge-Outside,
}
use meshcore_control_bridge.Telegram.Service.Traffic.{
  is_on_of, is_on-IsOutside, sent-IsOutside, handled-IsOutside, handled-IsTraffic,
  audit_text-Traffic, record_text-Traffic, confirmed-Traffic, fail_text-Traffic,
  after_send_text-traffic, admit_text-Traffic,
}
use meshcore_control_bridge.Telegram.Service.Sent.{IsBridged, process_forward_update-sent}
use meshcore_control_bridge.Telegram.Service.Answers.{
  RouterKeeps, IsCommanded, process_command_update-sent, process_command_update-handled,
}
use meshcore_control_bridge.Telegram.Service.Admitted.{IsAdmitted, process_update-Adds}

module _ {H : Type 0} (env : Environment) (python : Externals) (service : TelegramService H) where
  module _ (update : Received) (message : InboundMessage) (received : Option ℕ) where
    send-Handled : (outbound : OutboundMessage) → Fixes handled_of (send env outbound)
    unfolding send
    send-Handled outbound = record { at = λ w. answered w (env.send_fault w.reads) }
      where
        answered :
            (w : World) (fault : Option Exn)
            → (accept fault outbound (record w { reads = suc w.reads })).1.handled ≡ w.handled
        answered w none = refl
        answered w (some e) = refl

    send_text-Handled :
        (body : Text) (size_bytes : ℕ) (truncated : Bool)
        → Fixes handled_of
            (send_text env python service update message received body size_bytes truncated)
    unfolding send_text
    send_text-Handled body size_bytes truncated = record {
      at = λ w. chosen w service.has_transport;
    }
      where
        chosen :
            (w : World) (has : Bool)
            → (if has
                then after_send_text env python service update message received body size_bytes
                    truncated
                    (send env (outbound_text env python service update message received body) w)
                else fail_text env python service update message received body size_bytes truncated
                    "transport_unavailable" w).1.handled
              ≡ w.handled
        chosen w false =
            (fail_text-Traffic handled-IsTraffic env python service update message received body
                size_bytes truncated "transport_unavailable").at
              w
        chosen w true =
            after_send_text-traffic handled-IsTraffic env python service update message received
              body size_bytes truncated _ _
            ∙ (send-Handled _).at w

    ignored-Handled :
        (kind : EventKind) (m : Exec TelegramUpdateDecision)
        → Fixes handled_of m
        → Fixes handled_of (audit_text env python service update message received kind >>= λ id. m)
    ignored-Handled kind m p =
        Fixes-bind handled_of _ _
          (audit_text-Traffic handled-IsTraffic env python service update message received kind)
          λ id. p

    forward_update-Handled :
        (rendered : Option Text) (truncated : Bool)
        → Fixes handled_of
            (forward_update env python service update message received rendered truncated)
    unfolding forward_update limit_text
    forward_update-Handled none truncated = ignored-Handled _ _ (
        Fixes-bind handled_of _ _
          (record_text-Traffic handled-IsTraffic env python service update message received [] 0
            "dropped")
          λ r. settle-Outside handled-IsOutside env _ _ update _)
    forward_update-Handled (some body) truncated =
        Fixes-bind handled_of _ _
          (admit_text-Traffic handled-IsTraffic env python service update message received)
          λ allowed. Fixes-if handled_of allowed _ _ (send_text-Handled body _ truncated) (
            ignored-Handled _ _ (
              Fixes-bind handled_of _ _
                (record_text-Traffic handled-IsTraffic env python service update message received
                  body _ "dropped")
                λ r.
                  confirmed-Traffic handled-IsTraffic env python service update message received _ _
                    _))

    forward_received-Handled :
        (rendered : ForwardRenderResult)
        → Fixes handled_of (forward_received env python service update message received rendered)
    unfolding forward_received
    forward_received-Handled rendered = record {
      at = λ w.
          (Fixes-if handled_of (effective_to_meshcore service.forward w.health) _ _
              (forward_update-Handled rendered.text rendered.truncated)
              (ignored-Handled _ _ (
                confirmed-Traffic handled-IsTraffic env python service update message received _ _
                  _))).at
            w;
    }

  process_forward_update-Handled :
      (update : Received) (body : Text)
      → Fixes handled_of (process_forward_update env python service update body)
  unfolding process_forward_update
  process_forward_update-Handled update body =
      Fixes-bind handled_of _ _
        (inbound_message-Outside handled-IsOutside env python service update _)
        λ message.
          Fixes-bind handled_of _ _ (audit_bridge-Outside handled-IsOutside env _ _ _ _)
            λ received. forward_received-Handled update message received _

  -- Processing an update of Telegram runs at most one command, if no handler calls the router. It
  -- runs one only if the update is no edit and brings a text of the allowed user in the allowed
  -- private chat that begins with the command prefix, and only a command that the router grants to
  -- the authorised Telegram user for the kept part of that text.
  pub process_update-handled :
      RouterKeeps env service.audit_flow service.router handled_of
      → (fields : Fields) (w : World)
      → AtMostOne
          (λ run.
            (body : Text) × IsAdmitted env python service fields body
            × (starts_with (strip body) service.command_prefix ≡ true)
            × IsCommanded env python service body run)
          w.handled
          (process_update env python service fields w).1.handled
  process_update-handled quiet fields w =
      AtMostOne-weaken _ _ (λ run a. elim a.2 [ inl p ↦ (a.0, a.1, p.0, p.1) | inr q ↦ absurd q.1 ])
        ((process_update-Adds env python service (is_on_of service) handled_of
            (is_on-IsOutside service) handled-IsOutside fields
            (λ body on run. IsCommanded env python service body run) (λ body on run. ⊥)
            (λ update body a.
              GrowsBy-plain _ _ _ _ _ (λ v run c. c)
                (process_command_update-handled env python service quiet update body))
            (λ update body a.
              GrowsBy-fixed _ _ _ _ (process_forward_update-Handled update body))).at
          w)

  -- Processing an update of Telegram sends at most one message to MeshCore, if no handler sends one.
  -- It sends one only if the update is no edit and brings a text of the allowed user in the allowed
  -- private chat that does not begin with the command prefix, only while the direction to MeshCore
  -- is on, and the message is that text as it is rendered, on the channel of the service.
  pub process_update-sent :
      RouterKeeps env service.audit_flow service.router sent_of
      → (fields : Fields) (w : World)
      → AtMostOne
          (λ outbound.
            (body : Text) × IsAdmitted env python service fields body
            × (starts_with (strip body) service.command_prefix ≡ false)
            × IsBridged env python service
                (rendered_update env python service body).text
                (is_on_of service w)
                outbound)
          w.sent
          (process_update env python service fields w).1.sent
  process_update-sent quiet fields w =
      AtMostOne-weaken _ _ (λ x a. elim a.2 [ inl p ↦ absurd p.1 | inr q ↦ (a.0, a.1, q.0, q.1) ])
        ((process_update-Adds env python service (is_on_of service) sent_of
            (is_on-IsOutside service) sent-IsOutside fields (λ body on x. ⊥)
            (λ body on x.
              IsBridged env python service (rendered_update env python service body).text on x)
            (λ update body a.
              GrowsBy-fixed _ _ _ _
                (process_command_update-sent env python service quiet update body))
            (λ update body a. process_forward_update-sent env python service update body)).at
          w)
