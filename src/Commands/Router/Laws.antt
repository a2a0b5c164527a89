-- ===== src/Commands/Router/Laws.antt =====
-- A command runs only for a user whom its role and the room of the message let through.
use meshcore_control_bridge.Common.{
  ◌≡◌, refl, sym, ap, ◌∙◌, String, Bool, false, Bool-cases, Option, none, some, inl, inr, List, [],
  ◌∷◌, ◌++◌,
}
use meshcore_control_bridge.Python.{Result, ok, raise, is_exception}
use meshcore_control_bridge.Text.Utf8.{Text}
use meshcore_control_bridge.Models.{InboundMessage}
use meshcore_control_bridge.Auth.{AuthorizedUser, require_message}
use meshcore_control_bridge.Commands.Parser.{ParsedCommand, parse_command}
use meshcore_control_bridge.Commands.Registry.{CommandDefinition, resolve}
use meshcore_control_bridge.World.Events.{AuditTrail}
use meshcore_control_bridge.World.Exec.{World, Environment, Exec, ◌>>=◌, pure}
use meshcore_control_bridge.World.Keeps.{
  Keeps, Keeps-pure, Keeps-throw, Keeps-bind, Keeps-guarded, Keeps-audit_write,
}
use meshcore_control_bridge.World.Grows.{
  Fixes, Grows, sent_of, handled_of, Fixes-sent, Fixes-handled, Fixes-bind, Grows-fixed,
  Grows-after, Grows-before, Grows-weaken,
}
use meshcore_control_bridge.Audit.{authorization}
use meshcore_control_bridge.Audit.Quiet.{parsed_event-Keeps, authorization-Keeps, execution-Keeps}
use meshcore_control_bridge.Commands.Router.{
  HandlerRun, Router, Body, audited, after_handler, run_command, after_authorization, dispatch,
  legacy_command, finish, reply_of, handle_parsed, handle,
}

pub audited-Keeps :
    (env : Environment) (write : AuditTrail → Exec AuditTrail)
    → ((t : AuditTrail) → Keeps (write t))
    → (trail : Option AuditTrail) → Keeps (audited env write trail)
audited-Keeps env write h none = Keeps-pure none
audited-Keeps env write h (some trail) =
    Keeps-bind _ _ (Keeps-guarded env false (pure trail) (write trail) (Keeps-pure trail) (h trail))
      λ t. Keeps-pure (some t)

module _ {H : Type 0} (env : Environment) (enabled : Bool) (router : Router H) where
  legacy_command-Keeps :
      (message : InboundMessage) (command : Text) (outcome : String)
      → Keeps (legacy_command env enabled router message command outcome)
  unfolding legacy_command
  legacy_command-Keeps message command outcome =
      Keeps-guarded env false (pure tt) _ (Keeps-pure tt) (
        Keeps-bind _ _
          (Keeps-audit_write env _
            λ n w. record { rows = refl; limiter = refl; sent = refl; handled = refl })
          λ id. Keeps-pure tt)

  pub finish-Keeps :
      (message : InboundMessage) (command : Text) (reply : Result Text) (outcome : String)
      (registered : Bool) (trail : Option AuditTrail)
      → Keeps (
          finish env enabled router message command
            (record { reply = reply; outcome = outcome; registered = registered; trail = trail }))
  unfolding finish
  finish-Keeps message command reply outcome registered none =
      Keeps-bind _ _ (legacy_command-Keeps message command outcome) λ u. Keeps-pure none
  finish-Keeps message command reply outcome registered (some trail) =
      Keeps-bind _ _
        (Keeps-guarded env false (pure trail) _ (Keeps-pure trail)
          (execution-Keeps env enabled trail command outcome registered))
        λ t. Keeps-pure (some t)

  -- The handlers leave a part of the state alone.
  abbrev pub HandlersKeep : {X : Type 0} → (World → X) → Type 0
  HandlersKeep part =
      (h : H) (message : InboundMessage) (user : AuthorizedUser) (args : List Text)
      (trail : Option AuditTrail) (w : World)
      → part (router.run_handler h message user args trail w).2 ≡ part w

  -- What the router has checked when it runs a command.
  pub record IsGranted (message : InboundMessage) (run : Text × AuthorizedUser) : Type 0 where
    pub parsed : ParsedCommand
    pub definition : CommandDefinition H
    pub is_parsed : parse_command router.lower message.body router.prefix ≡ some parsed
    pub is_resolved : resolve router.lower parsed.name router.registry ≡ some definition
    pub is_named : run.0 ≡ definition.name
    pub is_authorized :
        require_message router.authorizer message definition.minimum_role ≡ some run.1

  after_handler-handled :
      (run : HandlerRun) → (after_handler env enabled router run).1.handled ≡ run.2.handled
  unfolding after_handler
  after_handler-handled (ok text, trail, w) = refl
  after_handler-handled (raise e, trail, w) = elim (Bool-cases (is_exception e)) [
    | inl caught ↦ rw caught refl
    | inr passed ↦ rw passed refl
  ]

  after_handler-sent :
      (run : HandlerRun) → (after_handler env enabled router run).1.sent ≡ run.2.sent
  unfolding after_handler
  after_handler-sent (ok text, trail, w) = refl
  after_handler-sent (raise e, trail, w) = elim (Bool-cases (is_exception e)) [
    | inl caught ↦ rw caught refl
    | inr passed ↦ rw passed refl
  ]

  run_command-handled :
      HandlersKeep handled_of
      → (d : CommandDefinition H) (user : AuthorizedUser) (message : InboundMessage)
        (args : List Text) (trail : Option AuditTrail)
      → Grows handled_of
          (λ run. run ≡ (d.name, user))
          (run_command env enabled router d user message args trail)
  unfolding run_command
  run_command-handled quiet d user message args trail = record {
    at = λ w. inr (
      (d.name, user),
      after_handler-handled (
            router.run_handler d.handler message user args trail
              (record w { handled = w.handled ++ (d.name, user) ∷ [] }))
          ∙ quiet d.handler message user args trail _,
      refl,
    );
  }

  run_command-sent :
      HandlersKeep sent_of
      → (d : CommandDefinition H) (user : AuthorizedUser) (message : InboundMessage)
        (args : List Text) (trail : Option AuditTrail)
      → Fixes sent_of (run_command env enabled router d user message args trail)
  unfolding run_command
  run_command-sent quiet d user message args trail = record {
    at = λ w.
        after_handler-sent (
          router.run_handler d.handler message user args trail
            (record w { handled = w.handled ++ (d.name, user) ∷ [] }))
        ∙ quiet d.handler message user args trail _;
  }

  module _ (message : InboundMessage) (args : List Text) (trail : Option AuditTrail) where
    authorization_trail-Keeps :
        (result reason : String) (name : Text)
        → Keeps (audited env (λ t. authorization env enabled t result reason name) trail)
    authorization_trail-Keeps result reason name =
        audited-Keeps env _ (λ t. authorization-Keeps env enabled t result reason name) trail

    after_authorization-handled :
        HandlersKeep handled_of
        → (d : CommandDefinition H) (found : Option AuthorizedUser)
        → Grows handled_of
            (λ run. (run.0 ≡ d.name) × (found ≡ some run.1))
            (after_authorization env enabled router d message args trail found)
    unfolding after_authorization
    after_authorization-handled quiet d none =
        Grows-fixed handled_of _ _ (
          Fixes-handled (Keeps-bind _ _ (authorization_trail-Keeps "denied" _ _) λ t. Keeps-pure _))
    after_authorization-handled quiet d (some user) =
        Grows-after handled_of _ _ _
          (Fixes-handled (authorization_trail-Keeps "allowed" "allowed" d.name))
          λ t.
            Grows-weaken handled_of _ _ _
              (λ run same. (ap (λ r. r.0) same, ap (λ r. some r.1) (sym same)))
              (run_command-handled quiet d user message args t)

    after_authorization-sent :
        HandlersKeep sent_of
        → (d : CommandDefinition H) (found : Option AuthorizedUser)
        → Fixes sent_of (after_authorization env enabled router d message args trail found)
    unfolding after_authorization
    after_authorization-sent quiet d none =
        Fixes-sent (Keeps-bind _ _ (authorization_trail-Keeps "denied" _ _) λ t. Keeps-pure _)
    after_authorization-sent quiet d (some user) =
        Fixes-bind sent_of _ _ (Fixes-sent (authorization_trail-Keeps "allowed" "allowed" d.name))
          λ t. run_command-sent quiet d user message args t

    dispatch-handled :
        HandlersKeep handled_of
        → (found : Option (CommandDefinition H))
        → Grows handled_of
            (λ run.
              (d : CommandDefinition H) × (found ≡ some d)
              × (run.0 ≡ d.name)
              × (require_message router.authorizer message d.minimum_role ≡ some run.1))
            (dispatch env enabled router found message args trail)
    unfolding dispatch
    dispatch-handled quiet none = Grows-fixed handled_of _ _ (Fixes-handled (Keeps-pure _))
    dispatch-handled quiet (some d) =
        Grows-weaken handled_of _ _ _ (λ run g. (d, refl, g.0, g.1))
          (after_authorization-handled quiet d _)

    dispatch-sent :
        HandlersKeep sent_of
        → (found : Option (CommandDefinition H))
        → Fixes sent_of (dispatch env enabled router found message args trail)
    unfolding dispatch
    dispatch-sent quiet none = Fixes-sent (Keeps-pure _)
    dispatch-sent quiet (some d) = after_authorization-sent quiet d _

  reply_of-Keeps :
      (reply : Result Text) (trail : Option AuditTrail)
      → Keeps (reply_of env enabled router reply trail)
  reply_of-Keeps (ok text) trail = Keeps-pure (some text, trail)
  reply_of-Keeps (raise e) trail = Keeps-throw e

  finish_and_reply-Keeps :
      (message : InboundMessage) (command : Text) (body : Body)
      → Keeps (
          finish env enabled router message command body >>= λ t.
          reply_of env enabled router body.reply t)
  finish_and_reply-Keeps message command body =
      Keeps-bind _ _
        (finish-Keeps message command body.reply body.outcome body.registered body.trail)
        λ t. reply_of-Keeps body.reply t

  handle_parsed-handled :
      HandlersKeep handled_of
      → (message : InboundMessage) (trail : Option AuditTrail) (found : Option ParsedCommand)
      → parse_command router.lower message.body router.prefix ≡ found
      → Grows handled_of (IsGranted message) (handle_parsed env enabled router found message trail)
  unfolding handle_parsed
  handle_parsed-handled quiet message trail none e =
      Grows-fixed handled_of _ _ (Fixes-handled (Keeps-pure (none, trail)))
  handle_parsed-handled quiet message trail (some parsed) e =
      Grows-before handled_of _ _ _
        (Grows-weaken handled_of _ _ _
          (λ run g. record {
            parsed = parsed;
            definition = g.0;
            is_parsed = e;
            is_resolved = g.1;
            is_named = g.2;
            is_authorized = g.3;
          })
          (dispatch-handled message parsed.args trail quiet _))
        λ body. Fixes-handled (finish_and_reply-Keeps message parsed.name body)

  -- Handling a message runs at most one command, if no handler calls the router. It runs one only
  -- if the text parses as a command whose name the registry resolves to it, and only for the
  -- user whom `require_message` returns for its minimum role.
  pub handle-authorized :
      HandlersKeep handled_of
      → (message : InboundMessage) (trail : Option AuditTrail)
      → Grows handled_of (IsGranted message) (handle env enabled router message trail)
  unfolding handle
  handle-authorized quiet message trail =
      Grows-after handled_of _ _ _
        (Fixes-handled (audited-Keeps env _ (λ t. parsed_event-Keeps env enabled t _ _) trail))
        λ t. handle_parsed-handled quiet message t _ refl

  handle_parsed-sent :
      HandlersKeep sent_of
      → (message : InboundMessage) (trail : Option AuditTrail) (found : Option ParsedCommand)
      → Fixes sent_of (handle_parsed env enabled router found message trail)
  unfolding handle_parsed
  handle_parsed-sent quiet message trail none = Fixes-sent (Keeps-pure (none, trail))
  handle_parsed-sent quiet message trail (some parsed) =
      Fixes-bind sent_of _ _ (dispatch-sent message parsed.args trail quiet _)
        λ body. Fixes-sent (finish_and_reply-Keeps message parsed.name body)

  pub handle-sent :
      HandlersKeep sent_of
      → (message : InboundMessage) (trail : Option AuditTrail)
      → Fixes sent_of (handle env enabled router message trail)
  unfolding handle
  handle-sent quiet message trail =
      Fixes-bind sent_of _ _
        (Fixes-sent (audited-Keeps env _ (λ t. parsed_event-Keeps env enabled t _ _) trail))
        λ t. handle_parsed-sent quiet message t _
