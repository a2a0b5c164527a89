-- ===== src/World/Atomic.antt =====
-- A write to the Telegram tables happens as a whole or not at all.
use meshcore_control_bridge.Common.{ℕ, false}
use meshcore_control_bridge.Python.{Result}
use meshcore_control_bridge.Storage.Laws.{IsAtomic, write_transaction-IsAtomic}
use meshcore_control_bridge.Telegram.Store.{TelegramTables}
use meshcore_control_bridge.World.Exec.{
  World, Environment, store_write, sqlite_write_retries, sqlite_write_retry_initial,
}

pub store_write-IsAtomic :
    {A : Type 0} (env : Environment)
    (operation : ℕ → ℕ → TelegramTables → Result A × TelegramTables) (w : World)
    → IsAtomic
        (env.store_answers w.reads)
        (operation (env.clock w.reads) w.reads)
        w.telegram
        (store_write env operation w).0
        (store_write env operation w).1.telegram
unfolding store_write
store_write-IsAtomic env operation w =
    write_transaction-IsAtomic (env.store_answers w.reads) (operation (env.clock w.reads) w.reads)
      w.telegram false sqlite_write_retries sqlite_write_retry_initial
