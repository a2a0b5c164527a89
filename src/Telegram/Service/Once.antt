-- ===== src/Telegram/Service/Once.antt =====
-- An update is taken once: within an hour its number is a duplicate, whatever happens in between.
use meshcore_control_bridge.Common.{
  ℕ, suc, ◌+◌, ◌≤◌, ◌<◌, ◌≡◌, ◌≢◌, refl, ap, Bool, true, false, Bool-cases, inl, inr, List, [], ◌∷◌,
  arith, length,
}
use meshcore_control_bridge.Python.{Result, ok, raise, is_sqlite_error}
use meshcore_control_bridge.Text.Utf8.{Text}
use meshcore_control_bridge.Dedup.Laws.{Holds}
use meshcore_control_bridge.Storage.Laws.{atomic_keeps, atomic_ok}
use meshcore_control_bridge.World.Atomic.{store_write-IsAtomic}
use meshcore_control_bridge.World.Exec.{
  World, Environment, store_write, guarded_sqlite, recover_sqlite,
}
use meshcore_control_bridge.Telegram.Store.{update_window_seconds, store_update, update_ref_hash}
use meshcore_control_bridge.Telegram.Store.Updates.{
  store_update-Holds, Holds-store_update, store_update-not_fresh,
}
use meshcore_control_bridge.Telegram.Forwarder.{degrade_telegram}
use meshcore_control_bridge.Telegram.Service.{Externals, TelegramService, seen_or_store_update}

-- The tables and the number of the next reading behind a guard of SQLite, which touches neither.
recovered-tables :
    (env : Environment) (r : Result Bool) (w : World)
    → ((recover_sqlite (degrade_telegram env) true (r, w)).1.telegram ≡ w.telegram)
      × ((recover_sqlite (degrade_telegram env) true (r, w)).1.reads ≡ w.reads)
      × ((recover_sqlite (degrade_telegram env) true (r, w)).0 ≡ ok false → r ≡ ok false)
unfolding degrade_telegram
recovered-tables env (ok b) w = (refl, refl, λ e. e)
recovered-tables env (raise x) w = elim (Bool-cases (is_sqlite_error x)) [
  | inl sqlite ↦ rw sqlite (refl, refl, λ e. cc)
  | inr passed ↦ rw passed (refl, refl, λ e. e)
]

module _ {H : Type 0} (env : Environment) (python : Externals) (service : TelegramService H) where
  abbrev ref_of : ℕ → Text
  ref_of update_id = update_ref_hash python.hmac python.key_id python.decimal update_id

  abbrev pub seen : ℕ → World → World
  seen update_id w = (seen_or_store_update env python service update_id w).1

  -- the state behind calls for the given numbers
  unfoldable pub after_seen : List ℕ → World → World
  after_seen [] w = w
  after_seen (update_id ∷ ids) w = after_seen ids (seen update_id w)

  module _ (update_id : ℕ) (w : World) where
    abbrev write : Result Bool × World
    write = store_write env (λ now id. store_update now (ref_of update_id)) w

    seen-reads : (seen update_id w).reads ≡ suc w.reads
    unfolding seen_or_store_update guarded_sqlite store_write
    seen-reads = (recovered-tables env write.0 write.1).1

    Holds-seen :
        (key : Text) (until : ℕ)
        → env.clock w.reads < until
        → Holds key until w.telegram.updates
        → Holds key until (seen update_id w).telegram.updates
    unfolding seen_or_store_update guarded_sqlite store_write
    Holds-seen key until h k = rw ((recovered-tables env write.0 write.1).0) (
        atomic_keeps (env.store_answers w.reads)
          (store_update (env.clock w.reads) (ref_of update_id)) w.telegram
          (λ t. Holds key until t.updates) write.0 write.1.telegram
          (store_write-IsAtomic env (λ now id. store_update now (ref_of update_id)) w) k
          (Holds-store_update (env.clock w.reads) (ref_of update_id) w.telegram key until h k))

    fresh-done :
        (seen_or_store_update env python service update_id w).0 ≡ ok false
        → store_update (env.clock w.reads) (ref_of update_id) w.telegram
          ≡ (ok false, (seen update_id w).telegram)
    unfolding seen_or_store_update guarded_sqlite store_write
    fresh-done fresh = rw ((recovered-tables env write.0 write.1).0) (
        atomic_ok (env.store_answers w.reads) (store_update (env.clock w.reads) (ref_of update_id))
          w.telegram write.0 write.1.telegram false
          (store_write-IsAtomic env (λ now id. store_update now (ref_of update_id)) w)
          ((recovered-tables env write.0 write.1).2 fresh))

    fresh-Holds :
        (seen_or_store_update env python service update_id w).0 ≡ ok false
        → Holds
            (ref_of update_id)
            (env.clock w.reads + update_window_seconds)
            (seen update_id w).telegram.updates
    fresh-Holds fresh = rw (fresh-done fresh) at (
        store_update-Holds (env.clock w.reads) (ref_of update_id) w.telegram
          (ap (λ t. t.0) (fresh-done fresh)))

    held-not_fresh :
        (until : ℕ)
        → env.clock w.reads < until
        → Holds (ref_of update_id) until w.telegram.updates
        → (seen_or_store_update env python service update_id w).0 ≢ ok false
    held-not_fresh until h k fresh =
        store_update-not_fresh (env.clock w.reads) (ref_of update_id) w.telegram until h k
          (ap (λ t. t.0) (fresh-done fresh))

  after_seen-Holds :
      (ids : List ℕ) (w : World) (key : Text) (until : ℕ)
      → ((n : ℕ) → n < w.reads + length ids → env.clock n < until)
      → Holds key until w.telegram.updates
      → Holds key until (after_seen ids w).telegram.updates
        × ((after_seen ids w).reads ≡ w.reads + length ids)
  unfolding after_seen
  after_seen-Holds [] w key until early k = (k, omega arith)
  after_seen-Holds (update_id ∷ ids) w key until early k =
      let reads = seen-reads update_id w in
      let (held, counted) =
        after_seen-Holds ids (seen update_id w) key until (λ n m. early n (omega (arith, m, reads)))
          (Holds-seen update_id w key until (early w.reads (omega arith)) k) in
      (held, omega (arith, counted, reads))

  -- Once the number of an update was reported fresh, then after any calls for other updates, some of
  -- which may have failed, that number is not reported fresh, if until then no reading of the clock
  -- reaches the time of the first call plus an hour.
  pub seen_or_store_update_once :
      (update_id : ℕ) (ids : List ℕ) (w : World)
      → (seen_or_store_update env python service update_id w).0 ≡ ok false
      → ((n : ℕ)
          → n ≤ suc w.reads + length ids
          → env.clock n < env.clock w.reads + update_window_seconds)
      → (seen_or_store_update env python service update_id (after_seen ids (seen update_id w))).0
        ≢ ok false
  seen_or_store_update_once update_id ids w fresh early =
      let until = env.clock w.reads + update_window_seconds in
      let reads = seen-reads update_id w in
      let (held, counted) =
        after_seen-Holds ids (seen update_id w) (ref_of update_id) until
          (λ n m. early n (omega (arith, m, reads))) (fresh-Holds update_id w fresh) in
      held-not_fresh update_id (after_seen ids (seen update_id w)) until
        (early _ (omega (arith, counted, reads))) held
