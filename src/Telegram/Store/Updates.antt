-- ===== src/Telegram/Store/Updates.antt =====
-- The transaction of `TelegramStore.seen_or_store_update`: what it keeps and what it finds.
use meshcore_control_bridge.Common.{ℕ, suc, ◌+◌, ◌<◌, ◌≡◌, ◌≢◌, refl, false, List, [], ◌∷◌, arith}
use meshcore_control_bridge.Python.{ok}
use meshcore_control_bridge.Text.Utf8.{Text}
use meshcore_control_bridge.Dedup.{Row, purge}
use meshcore_control_bridge.Dedup.Laws.{Holds, Holds-purge, Holds-mono, has_key-purge}
use meshcore_control_bridge.Telegram.Store.{
  TelegramTables, update_window_seconds, purge_updates, store_update,
}

-- An update expires at its time already, a message after it.
purge_updates-eq : (now : ℕ) (rows : List Row) → purge_updates now rows ≡ purge (suc now) rows
unfolding purge_updates purge
purge_updates-eq now [] = refl
purge_updates-eq now (r ∷ rows) = ground (arith, purge_updates-eq now rows)

module _ (now : ℕ) (update_ref : Text) (t : TelegramTables) where
  pub store_update-Holds :
      (store_update now update_ref t).0 ≡ ok false
      → Holds update_ref (now + update_window_seconds) (store_update now update_ref t).1.updates
  unfolding store_update
  store_update-Holds h = ground arith

  pub Holds-store_update :
      (other : Text) (until : ℕ)
      → now < until
      → Holds other until t.updates
      → Holds other until (store_update now update_ref t).1.updates
  unfolding store_update
  Holds-store_update other until h k =
      ground (arith, purge_updates-eq now t.updates, Holds-purge other until (suc now) t.updates)

  pub store_update-not_fresh :
      (until : ℕ)
      → now < until
      → Holds update_ref until t.updates
      → (store_update now update_ref t).0 ≢ ok false
  unfolding store_update
  store_update-not_fresh until h k = ground (
    arith,
    purge_updates-eq now t.updates,
    has_key-purge update_ref (suc now) t.updates,
    Holds-mono update_ref until (suc now) t.updates,
  )
