-- ===== src/Telegram/Service/Answers.antt =====
-- What a command of Telegram runs, and that it sends nothing to MeshCore.
use meshcore_control_bridge.Common.{
  suc, ◌≡◌, refl, ◌∙◌, Bool, Bool-cases, Option, none, some, inl, inr,
}
use meshcore_control_bridge.Python.{
  value_error, runtime_error, os_error, timeout_error, sqlite_locked, sqlite_error, integrity_error,
  telegram_api_error, http_error, cancelled, other, telegram_rate_limit_error,
  telegram_conflict_error, Result, ok, raise, is_exception,
}
use meshcore_control_bridge.Text.Utf8.{Text}
use meshcore_control_bridge.Models.{InboundMessage, OutboundMessage}
use meshcore_control_bridge.Auth.{AuthorizedUser}
use meshcore_control_bridge.Commands.Router.{Router}
use meshcore_control_bridge.Commands.Router.Laws.{
  HandlersKeep, IsGranted, handle-authorized, handle-sent,
}
use meshcore_control_bridge.World.Events.{AuditTrail}
use meshcore_control_bridge.World.Exec.{World, Environment, Exec, ◌>>=◌}
use meshcore_control_bridge.World.Grows.{
  AtMostOne-same, Fixes, Fixes-bind, Grows, Grows-fixed, Grows-after, Grows-before, Grows-weaken,
  sent_of, handled_of,
}
use meshcore_control_bridge.World.Views.{AtMostOne-weaken}
use meshcore_control_bridge.Bridge.{normalized}
use meshcore_control_bridge.Telegram.SafeText.{safe_command_text}
use meshcore_control_bridge.Telegram.Service.{
  telegram_sender, Externals, TelegramService, Received, inbound_message,
}
use meshcore_control_bridge.Telegram.Service.Commands.{
  forgive_response, with_trail, after_response, send_command_response, response_to, knows,
  answer_by, respond, answer_and_respond, process_command_update,
}
use meshcore_control_bridge.Telegram.Service.Outside.{
  pure-Outside, throw-Outside, settle-Outside, sent_event-Outside, failed_event-Outside,
  inbound_message-Outside, message_received-Outside,
}
use meshcore_control_bridge.Telegram.Service.Traffic.{
  sent-IsOutside, handled-IsOutside, IsTraffic, sent-IsTraffic, handled-IsTraffic, post-Traffic,
}

-- The handlers of the router, where there is one, leave a part of the state alone.
abbrev pub RouterKeeps :
    {H X : Type 0} → Environment → Option Bool → Option (Router H) → (World → X) → Type 0
RouterKeeps env flow none part = Unit {0}
RouterKeeps env flow (some router) part = HandlersKeep env (normalized flow) router part

module _ {X : Type 0} {part : World → X} (traffic : IsTraffic part) where
  forgiven_response :
      (r : Result (Unit {0})) (w : World) → part (forgive_response (r, w)).1 ≡ part w
  forgiven_response (ok u) w = refl
  forgiven_response (raise value_error) w = refl
  forgiven_response (raise runtime_error) w = refl
  forgiven_response (raise os_error) w = refl
  forgiven_response (raise timeout_error) w = refl
  forgiven_response (raise sqlite_locked) w = refl
  forgiven_response (raise sqlite_error) w = refl
  forgiven_response (raise integrity_error) w = refl
  forgiven_response (raise telegram_api_error) w = refl
  forgiven_response (raise telegram_conflict_error) w = refl
  forgiven_response (raise (telegram_rate_limit_error n)) w = refl
  forgiven_response (raise http_error) w = refl
  forgiven_response (raise cancelled) w = refl
  forgiven_response (raise (other name)) w = refl

  module _ {H : Type 0} (env : Environment) (python : Externals) (service : TelegramService H) where
    with_trail-Traffic :
        (flow : Option Bool) (trail : Option AuditTrail)
        (write : Bool → AuditTrail → Exec AuditTrail)
        → ((enabled : Bool) (t : AuditTrail) → Fixes part (write enabled t))
        → Fixes part (with_trail env python service flow trail write)
    with_trail-Traffic none trail write h = pure-Outside traffic.outside env tt
    with_trail-Traffic (some enabled) none write h = pure-Outside traffic.outside env tt
    with_trail-Traffic (some enabled) (some t) write h =
        Fixes-bind part _ _ (h enabled t) λ t'. pure-Outside traffic.outside env tt

    after_response-traffic :
        (outbound : OutboundMessage) (trail : Option AuditTrail) (r : Result (Unit {0})) (w : World)
        → part (after_response env python service outbound trail (r, w)).1 ≡ part w
    unfolding after_response
    after_response-traffic outbound trail (ok u) w =
        (with_trail-Traffic service.audit_flow trail _
            (λ enabled t. sent_event-Outside traffic.outside env enabled t outbound)).at
          w
    after_response-traffic outbound trail (raise e) w = elim (Bool-cases (is_exception e)) [
      | inr passed ↦ rw passed refl
      | inl caught ↦ rw caught (
          (Fixes-bind part _ _
              (with_trail-Traffic service.audit_flow trail _
                (λ enabled t. failed_event-Outside traffic.outside env enabled t))
              λ u. throw-Outside traffic.outside env e).at
            w)
    ]

    respond-Traffic :
        (message : InboundMessage) (answer : Option Text × Option AuditTrail)
        → Fixes part (respond env python service message answer)
    unfolding respond send_command_response
    respond-Traffic message (none, trail) = pure-Outside traffic.outside env tt
    respond-Traffic message (some body, trail) = record {
      at = λ w.
          after_response-traffic (response_to env python service message body) trail _ _
          ∙ (post-Traffic traffic env _).at w;
    }

module _ {H : Type 0} (env : Environment) (python : Externals) (service : TelegramService H) where
  -- The router that there is answers a message.
  record IsAnswered (message : InboundMessage) (run : Text × AuthorizedUser) : Type 0 where
    router : Router H
    has_router : service.router ≡ some router
    granted : IsGranted env (normalized service.audit_flow) router message run

  answer_by-handled :
      (message : InboundMessage) (trail : Option AuditTrail) (router : Option (Router H))
      → service.router ≡ router
      → RouterKeeps env service.audit_flow router handled_of
      → Grows handled_of (IsAnswered message) (answer_by env python service router message trail)
  unfolding answer_by
  answer_by-handled message trail none e quiet =
      Grows-fixed handled_of _ _ (pure-Outside handled-IsOutside env _)
  answer_by-handled message trail (some router) e quiet =
      Grows-weaken handled_of _ _ _
        (λ run g. record { router = router; has_router = e; granted = g })
        (handle-authorized env (normalized service.audit_flow) router quiet message trail)

  answer_by-sent :
      (message : InboundMessage) (trail : Option AuditTrail) (router : Option (Router H))
      → RouterKeeps env service.audit_flow router sent_of
      → Fixes sent_of (answer_by env python service router message trail)
  unfolding answer_by
  answer_by-sent message trail none quiet = pure-Outside sent-IsOutside env _
  answer_by-sent message trail (some router) quiet =
      handle-sent env (normalized service.audit_flow) router quiet message trail

  answer_and_respond-handled :
      RouterKeeps env service.audit_flow service.router handled_of
      → (message : InboundMessage) (trail : Option AuditTrail)
      → Grows handled_of (IsAnswered message) (answer_and_respond env python service message trail)
  unfolding answer_and_respond
  answer_and_respond-handled quiet message trail = record {
    at = λ w. AtMostOne-same _ (forgiven_response handled-IsTraffic _ _) (
        (Grows-before handled_of _ _ _ (answer_by-handled message trail service.router refl quiet)
            λ answer. respond-Traffic handled-IsTraffic env python service message answer).at
          w);
  }

  answer_and_respond-sent :
      RouterKeeps env service.audit_flow service.router sent_of
      → (message : InboundMessage) (trail : Option AuditTrail)
      → Fixes sent_of (answer_and_respond env python service message trail)
  unfolding answer_and_respond
  answer_and_respond-sent quiet message trail = record {
    at = λ w.
        forgiven_response sent-IsTraffic _ _
        ∙ ((Fixes-bind sent_of _ _ (answer_by-sent message trail service.router quiet)
              λ answer. respond-Traffic sent-IsTraffic env python service message answer).at
            w);
  }

  pub process_command_update-sent :
      RouterKeeps env service.audit_flow service.router sent_of
      → (update : Received) (body : Text)
      → Fixes sent_of (process_command_update env python service update body)
  unfolding process_command_update
  process_command_update-sent quiet update body =
      Fixes-bind sent_of _ _ (inbound_message-Outside sent-IsOutside env python service update _)
        λ message.
          Fixes-bind sent_of _ _
            (message_received-Outside sent-IsOutside env python service message)
            λ trail.
              Fixes-bind sent_of _ _ (answer_and_respond-sent quiet message trail)
                λ u. settle-Outside sent-IsOutside env _ _ update _

  -- The router ran it on the kept text, as a message of the authorised user.
  pub record IsCommanded (body : Text) (run : Text × AuthorizedUser) : Type 0 where
    pub inbound : InboundMessage
    pub router : Router H
    pub has_router : service.router ≡ some router
    pub is_kept :
        inbound.body
        ≡ safe_command_text python.lower service.command_prefix
            (knows env python service service.router)
            body
    pub sender : inbound.sender ≡ some telegram_sender
    pub granted : IsGranted env (normalized service.audit_flow) router inbound run

  pub process_command_update-handled :
      RouterKeeps env service.audit_flow service.router handled_of
      → (update : Received) (body : Text)
      → Grows handled_of (IsCommanded body) (process_command_update env python service update body)
  unfolding process_command_update inbound_message ◌>>=◌
  process_command_update-handled quiet update body = record {
    at = λ w.
        AtMostOne-weaken _ _
          (λ run a. record {
            inbound = _;
            router = a.router;
            has_router = a.has_router;
            is_kept = refl;
            sender = refl;
            granted = a.granted;
          })
          ((Grows-after handled_of _ _ _
              (message_received-Outside handled-IsOutside env python service _)
              λ trail.
                Grows-before handled_of _ _ _ (answer_and_respond-handled quiet _ trail)
                  λ u. settle-Outside handled-IsOutside env _ _ update _).at
            (record w { reads = suc w.reads }));
  }
