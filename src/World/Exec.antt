-- ===== src/World/Exec.antt =====
-- The shared state, the environment, and the monad of the handlers.
use meshcore_control_bridge.Common.{
  ℕ, suc, String, Bool, false, Option, none, some, List, [], ◌∷◌, ◌++◌, if◌then◌else◌,
}
use meshcore_control_bridge.Python.{
  Exn, sqlite_locked, Result, ok, raise, is_sqlite_error, is_exception,
}
use meshcore_control_bridge.Text.Utf8.{Text}
use meshcore_control_bridge.Models.{OutboundMessage}
use meshcore_control_bridge.Auth.{AuthorizedUser}
use meshcore_control_bridge.Storage.{Answers, write_transaction}
use meshcore_control_bridge.Telegram.Store.{TelegramTables}
use meshcore_control_bridge.Dedup.{Row}
use meshcore_control_bridge.RateLimit.{RateLimiter}
use meshcore_control_bridge.Health.State.{BridgeHealthState}
use meshcore_control_bridge.Health.Ops.{set_audit_db_health}
use meshcore_control_bridge.World.Events.{Event, EventKind, CommandRow}

-- `sent` and `posted` are what the transport and the Telegram chat accepted, and `handled` which
-- command ran for whom, oldest first. The two limiters of the Telegram side are for the messages to
-- Telegram and to MeshCore. `reads` counts the answers that the environment has given.
pub record World : Type 0 where
  pub health : Option BridgeHealthState
  pub rows : List Row
  pub limiter : RateLimiter
  pub events : List Event
  pub commands : List CommandRow
  pub sent : List OutboundMessage
  pub handled : List (Text × AuthorizedUser)
  pub telegram : TelegramTables
  pub posted : List Text
  pub inbound_limiter : RateLimiter
  pub outbound_limiter : RateLimiter
  pub reads : ℕ

-- The environment, whose answers are given by their number: the clock, the faults of audit writes,
-- of the transport and of the Telegram client, and SQLite's answers to the deduplication and to the
-- tables of the Telegram side.
pub record Environment : Type 0 where
  pub clock : ℕ → ℕ
  pub audit_fault : ℕ → Option Exn
  pub send_fault : ℕ → Option Exn
  pub dedup_answers : ℕ → Answers
  pub store_answers : ℕ → Answers
  pub chat_fault : ℕ → Option Exn

abbrev pub Exec : Type 0 → Type 0
Exec A = World → Result A × World

abbrev pub continue : {A B : Type 0} → Result A → (A → Exec B) → Exec B
continue (ok a) f w = f a w
continue (raise e) f w = (raise e, w)

infixl 5 ◌>>=◌ ◌>>◌
unfoldable pub ◌>>=◌ : {A B : Type 0} → Exec A → (A → Exec B) → Exec B
◌>>=◌ m f w = let (r, w') = m w in continue r f w'

abbrev pub ◌>>◌ : {A B : Type 0} → Exec A → Exec B → Exec B
m >> k = m >>= λ _. k

unfoldable pub pure : {A : Type 0} → A → Exec A
pure a w = (ok a, w)

unfoldable pub throw : {A : Type 0} → Exn → Exec A
throw e w = (raise e, w)

-- A write to the audit: it fails, or `change` is applied with the number of the write.
unfoldable pub audit_write : Environment → (ℕ → World → World) → Exec ℕ
audit_write env change w =
    let w' = record w { reads = suc w.reads } in
    elim (env.audit_fault w.reads) [
      | some e ↦ (raise e, w')
      | none ↦ (ok w.reads, change w.reads w')
    ]

-- `NormalizedAuditRepository.insert_event` in its transaction.
unfoldable pub record_event : Environment → EventKind → Option ℕ → String → Exec ℕ
record_event env kind causation correlation = audit_write env λ n w. record w {
  events =
      w.events
      ++ record { id = n; kind = kind; causation = causation; correlation = correlation } ∷ [];
}

-- The transport refuses a message with a fault, or accepts it.
abbrev pub accept : Option Exn → OutboundMessage → World → Result (Unit {0}) × World
accept (some e) outbound w = (raise e, w)
accept none outbound w = (ok tt, record w { sent = w.sent ++ outbound ∷ [] })

-- `transport.send`
unfoldable pub send : Environment → OutboundMessage → Exec (Unit {0})
send env outbound w = accept (env.send_fault w.reads) outbound (record w { reads = suc w.reads })

-- `SQLITE_WRITE_RETRIES`, and `SQLITE_WRITE_RETRY_INITIAL_SECONDS` in milliseconds
abbrev pub sqlite_write_retries : ℕ
sqlite_write_retries = 3

abbrev pub sqlite_write_retry_initial : ℕ
sqlite_write_retry_initial = 50

-- A transaction on the Telegram tables, at a reading of the clock and with the number of the
-- reading, which stands for a fresh UUID.
unfoldable pub store_write :
    {A : Type 0} → Environment → (ℕ → ℕ → TelegramTables → Result A × TelegramTables) → Exec A
store_write env operation w =
    let o =
      write_transaction false sqlite_write_retries sqlite_write_retry_initial
        (env.store_answers w.reads) (operation (env.clock w.reads) w.reads) w.telegram in
    (o.result, record w { telegram = o.tables; reads = suc w.reads })

abbrev pub accept_post : Option Exn → Text → World → Result (Unit {0}) × World
accept_post (some e) text w = (raise e, w)
accept_post none text w = (ok tt, record w { posted = w.posted ++ text ∷ [] })

-- `client.send_message`
unfoldable pub post : Environment → Text → Exec (Unit {0})
post env text w = accept_post (env.chat_fault w.reads) text (record w { reads = suc w.reads })

-- `_sqlite_error_reason`: the class name of another SQLite error is no listed reason, and is kept as
-- `storage_error`.
abbrev pub sqlite_error_reason : Exn → String
sqlite_error_reason sqlite_locked = "database_locked"
sqlite_error_reason _ = "DatabaseError"

-- A change of the health state, where there is one.
abbrev pub on_health : (BridgeHealthState → BridgeHealthState) → World → World
on_health change w = record w { health = elim w.health [ none ↦ none | some h ↦ some (change h) ] }

-- `_mark_audit_degraded`
unfoldable pub mark_audit_degraded : Environment → Exn → World → World
mark_audit_degraded env e w =
    on_health (set_audit_db_health (env.clock w.reads) "degraded" (some (sqlite_error_reason e))) w

-- `except sqlite3.Error` with or without a mark, then `except Exception`: the fallback takes the
-- place of the result.
abbrev pub recover :
    {A : Type 0} → Environment → Bool → Exec A → Result A × World → Result A × World
recover env marks fallback (ok a, w) = (ok a, w)
recover env marks fallback (raise e, w) =
    if is_sqlite_error e
    then fallback (if marks then mark_audit_degraded env e w else w)
    else if is_exception e
    then fallback w
    else (raise e, w)

unfoldable pub guarded : {A : Type 0} → Environment → Bool → Exec A → Exec A → Exec A
guarded env marks fallback m w = recover env marks fallback (m w)

-- `except sqlite3.Error` alone: `mark` is what the handler does to the state.
abbrev pub recover_sqlite :
    {A : Type 0} → (Exn → World → World) → A → Result A × World → Result A × World
recover_sqlite mark fallback (ok a, w) = (ok a, w)
recover_sqlite mark fallback (raise e, w) =
    if is_sqlite_error e then (ok fallback, mark e w) else (raise e, w)

unfoldable pub guarded_sqlite : {A : Type 0} → (Exn → World → World) → A → Exec A → Exec A
guarded_sqlite mark fallback m w = recover_sqlite mark fallback (m w)
