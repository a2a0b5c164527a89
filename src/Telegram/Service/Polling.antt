-- ===== src/Telegram/Service/Polling.antt =====
-- telegram/service.py: `TelegramFoundationService.run`, from the activation to the rounds of polling.
pub mod Laws
pub mod Activation
use meshcore_control_bridge.Common.{
  ℕ, suc, ◌+◌, ◌*◌, min, String, Bool, true, false, Option, none, some, List, [], ◌∷◌, ◌++◌,
  if◌then◌else◌,
}
use meshcore_control_bridge.Python.{
  Exn, telegram_rate_limit_error, telegram_conflict_error, Result, ok, raise, is_transport_error,
}
use meshcore_control_bridge.Text.Utf8.{Text}
use meshcore_control_bridge.Health.Ops.{set_telegram_polling, record_failure}
use meshcore_control_bridge.World.Exec.{
  World, Environment, Exec, ◌>>=◌, ◌>>◌, pure, store_write, on_health, guarded_sqlite,
}
use meshcore_control_bridge.Telegram.Store.{is_activated, mark_activated}
use meshcore_control_bridge.Telegram.Store.Offset.{last_update_id, persist_last_update_id}
use meshcore_control_bridge.Telegram.Update.{Fields}
use meshcore_control_bridge.Telegram.Forwarder.{degrade_telegram}
use meshcore_control_bridge.Telegram.Service.{Externals, TelegramService, TelegramUpdateDecision}
use meshcore_control_bridge.Telegram.Service.Updates.{process_update}

-- The answers of Telegram to `delete_webhook`.
abbrev pub answer_webhook : Option Exn → World → Result (Unit {0}) × World
answer_webhook (some e) w = (raise e, w)
answer_webhook none w = (ok tt, w)

unfoldable pub delete_webhook : Environment → Exec (Unit {0})
delete_webhook env w = answer_webhook (env.chat_fault w.reads) (record w { reads = suc w.reads })

-- `initialize`
unfoldable pub initialize : Environment → Exec (Unit {0})
unfolding delete_webhook
initialize env w =
    (if is_activated w.telegram
        then pure tt
        else (delete_webhook env >> store_write env (λ now id. mark_activated)))
      w

abbrev pub polling_health : Environment → String → World → World
polling_health env polling w = on_health (set_telegram_polling (env.clock w.reads) polling) w

abbrev pub failed_health : Environment → String → World → World
failed_health env reason w = on_health (record_failure (env.clock w.reads) reason) w

-- The configured backoff, in ticks.
pub record Backoff : Type 0 where
  pub initial : ℕ
  pub maximum : ℕ

-- What a round leaves: the backoff of the next one, and what it sleeps.
pub record Round : Type 0 where
  pub backoff : ℕ
  pub sleeps : List ℕ

-- What the loop does with the outcome of a poll.
unfoldable pub after_poll :
    {A : Type 0} → Environment → Backoff → ℕ → Result A × World → Result Round × World
after_poll env b backoff (ok decisions, w) =
    (ok (record { backoff = b.initial; sleeps = [] }), polling_health env "connected" w)
after_poll env b backoff (raise (telegram_rate_limit_error retry_after), w) = (
  ok (record { backoff = backoff; sleeps = min retry_after b.maximum ∷ [] }),
  failed_health env "rate_limited" (polling_health env "degraded" w),
)
after_poll env b backoff (raise telegram_conflict_error, w) = (
  raise telegram_conflict_error,
  failed_health env "consumer_conflict" (polling_health env "degraded" w),
)
after_poll env b backoff (raise e, w) =
    if is_transport_error e
    then (
      ok (record { backoff = min (backoff * 2) b.maximum; sleeps = backoff ∷ [] }),
      failed_health env "transport_error" (polling_health env "degraded" w),
    )
    else (raise e, w)

-- `stop`, but for the flag that the rounds are told of
unfoldable pub stop : Environment → World → World
stop env w = polling_health env "disconnected" w

-- How a run that raises nothing is when the told rounds are over: ended by `stop`, or in its loop.
pub data Ending : Type 0 where
  by_stop still_polling : Ending

-- The end of a run: how it ended, what it slept, and the state.
abbrev pub Run : Type 0
Run = Result Ending × List ℕ × World

abbrev pub slept : List ℕ → Run → Run
slept sleeps (r, later, w) = (r, sleeps ++ later, w)

-- A stop during the round leaves out its sleep and ends the loop.
abbrev pub follow : Bool → Result Round × World → (ℕ → World → Run) → Run
follow stopping (raise e, w) next = (raise e, [], w)
follow true (ok round, w) next = (ok by_stop, [], w)
follow false (ok round, w) next = slept round.sleeps (next round.backoff w)

abbrev pub stopped : {A : Type 0} → Environment → Bool → Result A × World → Result A × World
stopped env true (r, w) = (r, stop env w)
stopped env false (r, w) = (r, w)

-- The loop over the rounds that are told, each with whether `stop` is called while it polls.
unfoldable pub run_rounds :
    {A : Type 0} → Environment → Backoff → Exec A → List Bool → ℕ → World → Run
unfolding after_poll
run_rounds env b poll [] backoff w = (ok still_polling, [], w)
run_rounds env b poll (stopping ∷ rounds) backoff w =
    follow stopping (after_poll env b backoff (stopped env stopping (poll w)))
      (λ next w'. run_rounds env b poll rounds next w')

module _ {H : Type 0} (env : Environment) (python : Externals) (service : TelegramService H)
    (int : Text → Result ℕ) (updates : ℕ → Option ℕ → Result (List Fields)) where
  -- `client.get_updates`, whose answer depends on the offset
  unfoldable pub get_updates : Option ℕ → Exec (List Fields)
  get_updates offset w = (updates w.reads offset, record w { reads = suc w.reads })

  unfoldable pub persist : ℕ → Exec (Unit {0})
  persist update_id =
      guarded_sqlite (degrade_telegram env) tt
        (store_write env λ now id. persist_last_update_id python.decimal update_id)

  -- The updates of one answer, in their order: each is processed, then its number is persisted.
  unfoldable pub process_all : List Fields → Exec (List TelegramUpdateDecision)
  unfolding persist
  process_all [] = pure []
  process_all (update ∷ rest) = do
    decision ← process_update env python service update
    kept ← persist decision.update_id
    decisions ← process_all rest
    pure (decision ∷ decisions)

  abbrev pub offset_after : Option ℕ → Option ℕ
  offset_after none = none
  offset_after (some last) = some (last + 1)

  abbrev pub poll_from : Result (Option ℕ) → Exec (List TelegramUpdateDecision)
  poll_from (raise e) w = (raise e, w)
  poll_from (ok last) w = (get_updates (offset_after last) >>= λ answer. process_all answer) w

  -- `poll_once`
  unfoldable pub poll_once : Exec (List TelegramUpdateDecision)
  unfolding process_all get_updates
  poll_once w = poll_from (last_update_id int w.telegram) w

  abbrev pub run_initialized : Backoff → List Bool → Result (Unit {0}) × World → Run
  run_initialized b rounds (raise e, w) = (raise e, [], w)
  run_initialized b rounds (ok _, w) = run_rounds env b poll_once rounds b.initial w

  -- `run`
  unfoldable pub run : Backoff → List Bool → World → Run
  unfolding run_rounds poll_once initialize
  run b rounds w = run_initialized b rounds (initialize env (polling_health env "disconnected" w))
