-- ===== src/Telegram/Service/Polling/Laws.antt =====
-- How the polling ends, and how long it sleeps.
use meshcore_control_bridge.Common.{
  ℕ, suc, ◌≤◌, ◌≡◌, ◌⊎◌, max, Bool, true, false, List, [], ◌∷◌, All,
}
use meshcore_control_bridge.Python.{
  Exn, telegram_conflict_error, Result, ok, raise, is_transport_error,
}
use meshcore_control_bridge.World.Exec.{World, Exec}
use meshcore_control_bridge.Telegram.Service.Polling.{
  Ending, by_stop, still_polling, Backoff, Round, Run,
}

-- An exception that ends the polling.
abbrev pub EndsPolling : Exn → Type 0
EndsPolling e = (e ≡ telegram_conflict_error) ⊎ (is_transport_error e ≡ false)

-- The rounds that are polled: those up to the one in which `stop` is called.
abbrev pub polled : List Bool → ℕ
polled [] = 0
polled (true ∷ rounds) = 1
polled (false ∷ rounds) = suc (polled rounds)

-- `stop` is called in one of the rounds, or the loop goes on behind them.
abbrev pub ending_of : List Bool → Ending
ending_of [] = still_polling
ending_of (true ∷ rounds) = by_stop
ending_of (false ∷ rounds) = ending_of rounds

-- A run that raises does so with a fault that ends the polling; every other has brought the count to
-- `final`, and ends with `ending`.
abbrev pub EndsWell : (World → ℕ) → ℕ → Ending → Run → Type 0
EndsWell count final ending (ok e, sleeps, w) = (e ≡ ending) × (count w ≡ final)
EndsWell count final ending (raise e, sleeps, w) = EndsPolling e

-- A round is within a bound on its sleeps and its next backoff, or it ends the polling.
abbrev IsBounded : ℕ → Result Round → Type 0
IsBounded bound (raise e) = EndsPolling e
IsBounded bound (ok round) = (round.backoff ≤ bound) × All (λ n. n ≤ bound) round.sleeps

abbrev pub bound_of : Backoff → ℕ
bound_of b = max b.initial b.maximum
