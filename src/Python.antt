-- ===== src/Python.antt =====
-- The exceptions that the program raises or catches, a result that may be one, and methods that
-- change a state and may raise: what was written before a raise stays written.
use meshcore_control_bridge.Common.{ℕ, String, Bool, true, false}

-- The subclasses of an exception are told apart where the program catches them apart. `cancelled`
-- is no `Exception`: only the clauses that name it catch it.
pub data Exn : Type 0 where
  value_error runtime_error os_error timeout_error : Exn
  sqlite_locked sqlite_error integrity_error : Exn
  telegram_api_error telegram_conflict_error : Exn
  telegram_rate_limit_error : ℕ → Exn
  http_error : Exn
  cancelled : Exn
  other : String → Exn

pub data Result {ℓ} (A : Type ℓ) : Type ℓ where
  ok : A → Result A
  raise : Exn → Result A

-- `except sqlite3.Error`
abbrev pub is_sqlite_error : Exn → Bool
is_sqlite_error sqlite_locked = true
is_sqlite_error sqlite_error = true
is_sqlite_error integrity_error = true
is_sqlite_error _ = false

-- `except Exception`
abbrev pub is_exception : Exn → Bool
is_exception cancelled = false
is_exception _ = true

-- `except (TelegramApiError, httpx.HTTPError, TimeoutError, OSError)`; a timeout is an `OSError`
abbrev pub is_transport_error : Exn → Bool
is_transport_error telegram_api_error = true
is_transport_error telegram_conflict_error = true
is_transport_error (telegram_rate_limit_error n) = true
is_transport_error http_error = true
is_transport_error timeout_error = true
is_transport_error os_error = true
is_transport_error _ = false
