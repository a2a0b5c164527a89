-- ===== src/Bridge/Laws.antt =====
-- What `process_message` sends, which command it runs, and which messages it leaves alone.
use meshcore_control_bridge.Common.{
  ℕ, suc, ◌≡◌, ◌⊎◌, refl, ◌∙◌, String, Bool, true, false, ◌==◌, ==_iff, Bool-cases, Option, none,
  some, inl, inr, codes, if◌then◌else◌,
}
use meshcore_control_bridge.Python.{Exn, Result, ok, raise, is_exception}
use meshcore_control_bridge.Text.Utf8.{Text}
use meshcore_control_bridge.Text.Trim.{trim_lora_response}
use meshcore_control_bridge.Models.{InboundMessage, OutboundMessage}
use meshcore_control_bridge.Auth.{AuthorizedUser, allows_room}
use meshcore_control_bridge.Commands.Router.Laws.{
  HandlersKeep, IsGranted, handle-authorized, handle-sent,
}
use meshcore_control_bridge.World.Events.{AuditTrail}
use meshcore_control_bridge.World.Exec.{World, Environment, Exec, ◌>>◌, pure, send, accept}
use meshcore_control_bridge.World.Keeps.{
  SameTraffic, SameTraffic-refl, SameTraffic-trans, Keeps, Keeps-pure, Keeps-bind, Keeps-guarded,
}
use meshcore_control_bridge.World.Grows.{
  AtMostOne, AtMostOne-same, Fixes, Grows, sent_of, handled_of, Fixes-sent, Fixes-handled,
  Fixes-bind, Grows-fixed, Grows-after, Grows-before, Grows-if, Grows-weaken,
}
use meshcore_control_bridge.Audit.Quiet.{
  degraded_trail-Keeps, received-Keeps, ignored-Keeps, sent_event-Keeps, failed_event-Keeps,
}
use meshcore_control_bridge.Bridge.{
  Forwarder, BridgeService, normalized, audit_message_received, audit_or_degrade,
  audit_message_ignored, audit_response_sent, audit_response_failed, handle_response_send_failure,
  after_send, deliver, reply_to, is_duplicate, admit, drop, forward_or_drop, forward_text,
  after_reply, after_admission, after_guards, guarded_message, process_message,
}

audit_message_received-Keeps :
    (env : Environment) (flow : Option Bool) (message : InboundMessage)
    → Keeps (audit_message_received env flow message)
unfolding audit_message_received
audit_message_received-Keeps env none message = Keeps-pure none
audit_message_received-Keeps env (some enabled) message =
    Keeps-bind _ _
      (Keeps-guarded env true _ _ (degraded_trail-Keeps env enabled message)
        (received-Keeps env enabled message))
      λ t. Keeps-pure (some t)

audit_or_degrade-Keeps :
    (env : Environment) (write : AuditTrail → Exec AuditTrail)
    → ((t : AuditTrail) → Keeps (write t))
    → (trail : Option AuditTrail) → Keeps (audit_or_degrade env write trail)
unfolding audit_or_degrade
audit_or_degrade-Keeps env write h none = Keeps-pure none
audit_or_degrade-Keeps env write h (some trail) =
    Keeps-bind _ _ (Keeps-guarded env true (pure trail) (write trail) (Keeps-pure trail) (h trail))
      λ t. Keeps-pure (some t)

module _ {H : Type 0} (sha256 : Text → Text) (decimal : ℕ → Text) (env : Environment)
    (service : BridgeService H) where
  abbrev ignoring : String → Option AuditTrail → Exec (Option AuditTrail)
  ignoring = audit_message_ignored sha256 decimal env service

  ignoring-Keeps : (reason : String) (trail : Option AuditTrail) → Keeps (ignoring reason trail)
  unfolding audit_message_ignored
  ignoring-Keeps reason trail =
      audit_or_degrade-Keeps env _ (λ t. ignored-Keeps env (normalized service.audit_flow) t reason)
        trail

  drop-Keeps :
      (reason : String) (trail : Option AuditTrail)
      → Keeps (drop sha256 decimal env service reason trail)
  drop-Keeps reason trail = Keeps-bind _ _ (ignoring-Keeps reason trail) λ t. Keeps-pure none

  after_sent-Keeps :
      (outbound : OutboundMessage) (trail : Option AuditTrail)
      → Keeps
          (audit_response_sent sha256 decimal env service outbound trail >> pure (some outbound))
  unfolding audit_response_sent
  after_sent-Keeps outbound trail =
      Keeps-bind _ _
        (audit_or_degrade-Keeps env _
          (λ t. sent_event-Keeps env (normalized service.audit_flow) t outbound) trail)
        λ t. Keeps-pure (some outbound)

  failure-Keeps :
      (e : Exn) (outbound : OutboundMessage) (trail : Option AuditTrail)
      → Keeps
          (handle_response_send_failure sha256 decimal env service e trail >> pure (some outbound))
  unfolding handle_response_send_failure audit_response_failed
  failure-Keeps e outbound trail =
      Keeps-bind _ _
        (record {
          at = λ w.
              SameTraffic-trans
                (record { rows = refl; limiter = refl; sent = refl; handled = refl })
                ((audit_or_degrade-Keeps env _
                    (λ t. failed_event-Keeps env (normalized service.audit_flow) t) trail).at
                  _);
        })
        λ t. Keeps-pure (some outbound)

  after_send-SameTraffic :
      (outbound : OutboundMessage) (trail : Option AuditTrail) (r : Result (Unit {0})) (w : World)
      → SameTraffic w (after_send sha256 decimal env service outbound trail (r, w)).1
  unfolding after_send
  after_send-SameTraffic outbound trail (ok u) w = (after_sent-Keeps outbound trail).at w
  after_send-SameTraffic outbound trail (raise e) w = elim (Bool-cases (is_exception e)) [
    | inl caught ↦ rw caught ((failure-Keeps e outbound trail).at w)
    | inr passed ↦ rw passed (SameTraffic-refl w)
  ]

  accept-sent :
      (fault : Option Exn) (outbound : OutboundMessage) (w : World)
      → AtMostOne (λ o. o ≡ outbound) w.sent (accept fault outbound w).1.sent
  accept-sent none outbound w = inr (outbound, refl, refl)
  accept-sent (some e) outbound w = inl refl

  accept-handled :
      (fault : Option Exn) (outbound : OutboundMessage) (w : World)
      → (accept fault outbound w).1.handled ≡ w.handled
  accept-handled none outbound w = refl
  accept-handled (some e) outbound w = refl

  deliver-sent :
      (outbound : OutboundMessage) (trail : Option AuditTrail)
      → Grows sent_of (λ o. o ≡ outbound) (deliver sha256 decimal env service outbound trail)
  unfolding deliver send
  deliver-sent outbound trail = record {
    at = λ w.
        AtMostOne-same _
          (after_send-SameTraffic outbound trail (send env outbound w).0
            (send env outbound w).1).sent
          (accept-sent (env.send_fault w.reads) outbound (record w { reads = suc w.reads }));
  }

  deliver-handled :
      (outbound : OutboundMessage) (trail : Option AuditTrail)
      → Fixes handled_of (deliver sha256 decimal env service outbound trail)
  unfolding deliver send
  deliver-handled outbound trail = record {
    at = λ w.
        (after_send-SameTraffic outbound trail (send env outbound w).0
          (send env outbound w).1).handled
        ∙ accept-handled (env.send_fault w.reads) outbound (record w { reads = suc w.reads });
  }

  -- A part of the state that the handlers and the forwarder leave alone.
  pub record OthersKeep {X : Type 0} (part : World → X) : Type 0 where
    pub handlers : HandlersKeep env (normalized service.audit_flow) service.router part
    pub forwarder :
        (forward : Forwarder)
        → service.normal_text_forwarder ≡ some forward
        → (message : InboundMessage) (trail : Option AuditTrail)
        → Fixes part (forward message trail)

  module _ {X : Type 0} (part : World → X)
      (keeps : (m : Exec (Option OutboundMessage)) → Keeps m → Fixes part m) where
    Fixes-if :
        {A : Type 0} (b : Bool) (m n : Exec A)
        → Fixes part m
        → Fixes part n
        → Fixes part (if b then m else n)
    Fixes-if true m n p q = p
    Fixes-if false m n p q = q

    forwarded :
        OthersKeep part
        → (message : InboundMessage) (trail : Option AuditTrail) (forward : Option Forwarder)
          (user : Option AuthorizedUser)
        → service.normal_text_forwarder ≡ forward
        → Fixes part (forward_or_drop sha256 decimal env service message trail forward user)
    unfolding forward_or_drop
    forwarded others message trail none user e = keeps _ (drop-Keeps "not_a_command" trail)
    forwarded others message trail (some forward) none e =
        keeps _ (drop-Keeps "sender_not_registered" trail)
    forwarded others message trail (some forward) (some user) e =
        Fixes-bind part _ _ (others.forwarder forward e message trail) λ b.
          Fixes-if b _ _ (keeps _ (Keeps-pure none)) (keeps _ (drop-Keeps "not_a_command" trail))

    forward_text-Fixes :
        OthersKeep part
        → (message : InboundMessage) (trail : Option AuditTrail)
        → Fixes part (forward_text sha256 decimal env service message trail)
    unfolding forward_text
    forward_text-Fixes others message trail = forwarded others message trail _ _ refl

  -- Rate limit and replies.
  abbrev pub IsReply : InboundMessage → OutboundMessage → Type 0
  IsReply message outbound =
      (outbound ≡ reply_to sha256 decimal env service message (codes "Rate limit."))
      ⊎ ((text : Text) × (outbound
            ≡ reply_to sha256 decimal env service message
                (trim_lora_response text service.meshcore_response_max_bytes)))

  module _ (message : InboundMessage) (sends : OthersKeep sent_of) where
    after_reply-sent :
        (trail : Option AuditTrail) (text : Option Text)
        → Grows sent_of
            (IsReply message)
            (after_reply sha256 decimal env service message trail text)
    unfolding after_reply
    after_reply-sent trail none =
        Grows-fixed sent_of _ _
          (forward_text-Fixes sent_of (λ m k. Fixes-sent k) sends message trail)
    after_reply-sent trail (some text) =
        Grows-weaken sent_of _ _ _ (λ o e. inr (text, e)) (deliver-sent _ trail)

    after_admission-sent :
        (trail : Option AuditTrail) (allowed : Bool)
        → Grows sent_of
            (IsReply message)
            (after_admission sha256 decimal env service message trail allowed)
    unfolding after_admission
    after_admission-sent trail false =
        Grows-after sent_of _ _ _ (Fixes-sent (ignoring-Keeps "rate_limited" trail))
          λ t. Grows-weaken sent_of _ _ _ (λ o e. inl e) (deliver-sent _ t)
    after_admission-sent trail true =
        Grows-after sent_of _ _ _
          (handle-sent env (normalized service.audit_flow) service.router sends.handlers message
            trail)
          λ answer. after_reply-sent answer.1 answer.0

    after_guards-sent :
        (trail : Option AuditTrail)
        → Grows sent_of (IsReply message) (after_guards sha256 decimal env service message trail)
    unfolding after_guards is_duplicate admit
    after_guards-sent trail =
        Grows-after sent_of _ _ _ (record { at = λ w. refl })
          λ duplicate.
            Grows-if sent_of _ duplicate _ _
              (Grows-fixed sent_of _ _ (Fixes-sent (drop-Keeps "duplicate" trail)))
              (Grows-after sent_of _ _ _ (record { at = λ w. refl })
                λ allowed. after_admission-sent trail allowed)

    guarded_message-sent :
        (trail : Option AuditTrail)
        → Grows sent_of (IsReply message) (guarded_message sha256 decimal env service message trail)
    unfolding guarded_message
    guarded_message-sent trail =
        Grows-if sent_of _ _ _ _
          (Grows-fixed sent_of _ _ (Fixes-sent (drop-Keeps "wrong_channel" trail)))
          (Grows-if sent_of _ _ _ _
            (Grows-fixed sent_of _ _ (Fixes-sent (drop-Keeps "room_not_allowed" trail)))
            (after_guards-sent trail))

    -- Where the handlers and the forwarder send nothing through the transport, processing a
    -- message sends at most one message: a reply to its sender on the channel of the service, whose
    -- body is the notice of the rate limit or a text trimmed to the byte limit of the service.
    pub process_message-sent :
        Grows sent_of (IsReply message) (process_message sha256 decimal env service message)
    unfolding process_message
    process_message-sent =
        Grows-after sent_of _ _ _
          (Fixes-sent (audit_message_received-Keeps env service.audit_flow message))
          guarded_message-sent

  -- The guards of the service and of the router, for a command that runs.
  pub record IsAccepted (message : InboundMessage) (run : Text × AuthorizedUser) : Type 0 where
    pub channel : message.channel_index ≡ service.channel_index
    pub room : allows_room service.router.authorizer message ≡ true
    pub granted : IsGranted env (normalized service.audit_flow) service.router message run

  module _ (message : InboundMessage) (runs : OthersKeep handled_of) where
    after_reply-handled :
        (trail : Option AuditTrail) (text : Option Text)
        → Fixes handled_of (after_reply sha256 decimal env service message trail text)
    unfolding after_reply
    after_reply-handled trail none =
        forward_text-Fixes handled_of (λ m k. Fixes-handled k) runs message trail
    after_reply-handled trail (some text) = deliver-handled _ trail

    after_admission-handled :
        (trail : Option AuditTrail) (allowed : Bool)
        → Grows handled_of
            (IsGranted env (normalized service.audit_flow) service.router message)
            (after_admission sha256 decimal env service message trail allowed)
    unfolding after_admission
    after_admission-handled trail false = Grows-fixed handled_of _ _ (
        Fixes-bind handled_of _ _ (Fixes-handled (ignoring-Keeps "rate_limited" trail))
          λ t. deliver-handled _ t)
    after_admission-handled trail true =
        Grows-before handled_of _ _ _
          (handle-authorized env (normalized service.audit_flow) service.router runs.handlers
            message trail)
          λ answer. after_reply-handled answer.1 answer.0

    after_guards-handled :
        (trail : Option AuditTrail)
        → Grows handled_of
            (IsGranted env (normalized service.audit_flow) service.router message)
            (after_guards sha256 decimal env service message trail)
    unfolding after_guards is_duplicate admit
    after_guards-handled trail =
        Grows-after handled_of _ _ _ (record { at = λ w. refl })
          λ duplicate.
            Grows-if handled_of _ duplicate _ _
              (Grows-fixed handled_of _ _ (Fixes-handled (drop-Keeps "duplicate" trail)))
              (Grows-after handled_of _ _ _ (record { at = λ w. refl })
                λ allowed. after_admission-handled trail allowed)

    guarded_message-handled :
        (trail : Option AuditTrail)
        → Grows handled_of
            (IsAccepted message)
            (guarded_message sha256 decimal env service message trail)
    unfolding guarded_message
    guarded_message-handled trail =
        elim (Bool-cases (message.channel_index == service.channel_index)) [
          | inr off ↦
              rw off (Grows-fixed handled_of _ _ (Fixes-handled (drop-Keeps "wrong_channel" trail)))
          | inl on ↦ elim (Bool-cases (allows_room service.router.authorizer message)) [
            | inr shut ↦
                rw (on, shut)
                  (Grows-fixed handled_of _ _ (Fixes-handled (drop-Keeps "room_not_allowed" trail)))
            | inl allowed ↦
                rw (on, allowed)
                  (Grows-weaken handled_of _ _ _
                    (λ run g. record {
                      channel = (==_iff message.channel_index service.channel_index).0 on;
                      room = allowed;
                      granted = g;
                    })
                    (after_guards-handled trail))
          ]
        ]

    -- Where the handlers and the forwarder run no command of their own, processing a message runs
    -- at most one command, and only if the message is on the channel of the service, its room allows
    -- commands, its text parses as the command, and its sender has the role for it.
    pub process_message-handled :
        Grows handled_of (IsAccepted message) (process_message sha256 decimal env service message)
    unfolding process_message
    process_message-handled =
        Grows-after handled_of _ _ _
          (Fixes-handled (audit_message_received-Keeps env service.audit_flow message))
          guarded_message-handled

  refused-Keeps :
      (message : InboundMessage) (trail : Option AuditTrail)
      → ((message.channel_index == service.channel_index) ≡ false)
        ⊎ (allows_room service.router.authorizer message ≡ false)
      → Keeps (guarded_message sha256 decimal env service message trail)
  unfolding guarded_message
  refused-Keeps message trail (inl off) = rw off (drop-Keeps "wrong_channel" trail)
  refused-Keeps message trail (inr shut) =
      elim (Bool-cases (message.channel_index == service.channel_index)) [
        | inr off ↦ rw off (drop-Keeps "wrong_channel" trail)
        | inl on ↦ rw (on, shut) (drop-Keeps "room_not_allowed" trail)
      ]

  -- A message on another channel, or from a room that does not allow commands, changes neither the
  -- deduplication keys nor the rate limiter, runs no command and sends nothing.
  pub process_message-refused :
      (message : InboundMessage)
      → ((message.channel_index == service.channel_index) ≡ false)
        ⊎ (allows_room service.router.authorizer message ≡ false)
      → Keeps (process_message sha256 decimal env service message)
  unfolding process_message
  process_message-refused message refused =
      Keeps-bind _ _ (audit_message_received-Keeps env service.audit_flow message)
        λ t. refused-Keeps message t refused
