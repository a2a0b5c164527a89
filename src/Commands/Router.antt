-- ===== src/Commands/Router.antt =====
-- commands/router.py: `CommandRouter.handle`, from the text of a message to the reply.
pub mod Laws
use meshcore_control_bridge.Common.{
  ℕ, ◌+◌, String, Bool, true, false, not, Option, none, some, List, [], ◌∷◌, ◌++◌, ltb,
  if◌then◌else◌, codes,
}
use meshcore_control_bridge.Python.{Exn, Result, ok, raise, is_exception}
use meshcore_control_bridge.Text.Utf8.{Text}
use meshcore_control_bridge.Models.{InboundMessage}
use meshcore_control_bridge.Auth.{
  Role, readonly, level, AuthorizedUser, Authorizer, get_user, allows_room, sender_of,
  require_message,
}
use meshcore_control_bridge.Health.Ops.{record_command_processed}
use meshcore_control_bridge.Commands.Parser.{ParsedCommand, parse_command}
use meshcore_control_bridge.Commands.Registry.{CommandDefinition, Registry, resolve}
use meshcore_control_bridge.World.Events.{AuditTrail}
use meshcore_control_bridge.World.Exec.{
  World, Environment, Exec, ◌>>=◌, ◌>>◌, pure, throw, audit_write, on_health, guarded,
}
use meshcore_control_bridge.Audit.{parsed_event, authorization, execution}

-- What a handler returns or raises, and the trail that its own audit events leave.
abbrev pub HandlerRun : Type 0
HandlerRun = Result Text × Option AuditTrail × World

-- The router with its services: `lower` is `str.lower`, `show_exn` prints an exception, and
-- `run_handler` runs a handler on the message, the user, the arguments and the trail.
pub record Router (H : Type 0) : Type 0 where
  pub registry : Registry H
  pub authorizer : Authorizer
  pub prefix : Text
  pub lower : Text → Text
  pub show_exn : Exn → Text
  pub run_handler :
      H → InboundMessage → AuthorizedUser → List Text → Option AuditTrail → World → HandlerRun

abbrev pub unknown_reply : Text
unknown_reply = codes "Comando desconocido. Usa !help"

abbrev pub denied_reply : Text
denied_reply = codes "No autorizado."

unfoldable pub denial_reason : Option AuthorizedUser → Role → Bool → String
denial_reason user minimum_role room_allowed =
    if not room_allowed then "room_not_allowed" else elim user [
      | none ↦ "sender_not_registered"
      | some _ ↦
          if ltb (level readonly) (level minimum_role)
          then "command_not_readonly"
          else "insufficient_role"
    ]

-- The locals that the `finally` reads, and what the body returns or raises.
pub record Body : Type 0 where
  pub reply : Result Text
  pub outcome : String
  pub registered : Bool
  pub trail : Option AuditTrail

-- `if self.audit_flow is not None and audit_trail is not None`: the trail is there only with the
-- flow. A fault of the audit leaves the trail as it was. The
-- program has one object for the trail of a message and changes it in place: here each step returns
-- the trail, and its callers go on with that.
abbrev pub audited :
    Environment → (AuditTrail → Exec AuditTrail) → Option AuditTrail → Exec (Option AuditTrail)
audited env write none = pure none
audited env write (some trail) = do
  trail' ← guarded env false (pure trail) (write trail)
  pure (some trail')

module _ {H : Type 0} (env : Environment) (normalized_enabled : Bool) (router : Router H) where
  -- Behind the handler: a success is counted, an `Exception` is the reply, and any other exception
  -- goes on with the result still `ignored`.
  unfoldable pub after_handler : HandlerRun → Result Body × World
  after_handler (ok text, trail, w) = (
    ok (record { reply = ok text; outcome = "succeeded"; registered = true; trail = trail }),
    on_health (record_command_processed (env.clock w.reads)) w,
  )
  after_handler (raise e, trail, w) =
      if is_exception e
      then (
        ok (record {
          reply = ok (codes "ERROR " ++ router.show_exn e);
          outcome = "failed";
          registered = true;
          trail = trail;
        }),
        w,
      )
      else (
        ok (record { reply = raise e; outcome = "ignored"; registered = true; trail = trail }),
        w,
      )

  unfoldable pub run_command :
      CommandDefinition H
      → AuthorizedUser
      → InboundMessage
      → List Text
      → Option AuditTrail
      → Exec Body
  unfolding after_handler
  run_command d user message args trail w = after_handler (
      router.run_handler d.handler message user args trail
        (record w { handled = w.handled ++ (d.name, user) ∷ [] }))

  -- Behind `require_message`.
  unfoldable pub after_authorization :
      CommandDefinition H
      → InboundMessage
      → List Text
      → Option AuditTrail
      → Option AuthorizedUser
      → Exec Body
  unfolding run_command
  after_authorization d message args trail none = do
    let reason =
        denial_reason (get_user router.authorizer (sender_of message)) d.minimum_role
          (allows_room router.authorizer message)
    trail' ← audited env (λ t. authorization env normalized_enabled t "denied" reason d.name) trail
    pure (record {
      reply = ok denied_reply;
      outcome = "unauthorized";
      registered = true;
      trail = trail';
    })
  after_authorization d message args trail (some user) = do
    trail' ←
        audited env (λ t. authorization env normalized_enabled t "allowed" "allowed" d.name) trail
    run_command d user message args trail'

  -- The body of the `try`.
  unfoldable pub dispatch :
      Option (CommandDefinition H) → InboundMessage → List Text → Option AuditTrail → Exec Body
  unfolding after_authorization
  dispatch none message args trail =
      pure (record {
        reply = ok unknown_reply;
        outcome = "unknown";
        registered = false;
        trail = trail;
      })
  dispatch (some d) message args trail =
      after_authorization d message args trail
        (require_message router.authorizer message d.minimum_role)

  -- `_audit_legacy_command`, where there is no trail
  unfoldable pub legacy_command : InboundMessage → Text → String → Exec (Unit {0})
  legacy_command message command outcome = guarded env false (pure tt) (do
    id ← audit_write env λ n w. record w {
      commands =
          w.commands ++ record { message = message; command = command; result = outcome } ∷ [];
    }
    pure tt)

  -- the `finally`
  unfoldable pub finish : InboundMessage → Text → Body → Exec (Option AuditTrail)
  unfolding legacy_command
  finish message command body = elim body.trail [
    | none ↦ legacy_command message command body.outcome >> pure none
    | some trail ↦ do
      trail' ←
          guarded env false (pure trail)
            (execution env normalized_enabled trail command body.outcome body.registered)
      pure (some trail')
  ]

  -- The reply, with the trail as its shared object is then.
  abbrev pub Answer : Type 0
  Answer = Option Text × Option AuditTrail

  abbrev pub reply_of : Result Text → Option AuditTrail → Exec Answer
  reply_of (ok text) trail = pure (some text, trail)
  reply_of (raise e) trail = throw e

  unfoldable pub handle_parsed :
      Option ParsedCommand → InboundMessage → Option AuditTrail → Exec Answer
  unfolding dispatch finish
  handle_parsed none message trail = pure (none, trail)
  handle_parsed (some parsed) message trail = do
    body ← dispatch (resolve router.lower parsed.name router.registry) message parsed.args trail
    trail' ← finish message parsed.name body
    reply_of body.reply trail'

  abbrev pub is_known : Option ParsedCommand → Bool
  is_known none = false
  is_known (some parsed) = elim (resolve router.lower parsed.name router.registry) [
    | none ↦ false
    | some d ↦ true
  ]

  unfoldable pub handle : InboundMessage → Option AuditTrail → Exec Answer
  unfolding handle_parsed
  handle message trail = do
    let parsed = parse_command router.lower message.body router.prefix
    trail' ← audited env (λ t. parsed_event env normalized_enabled t parsed (is_known parsed)) trail
    handle_parsed parsed message trail'
