-- ===== src/Tests/Stores.antt =====
-- The stores and the limits at concrete inputs.
use meshcore_control_bridge.Common.{
  zero, suc, ◌+◌, ◌≡◌, ◌≢◌, ◌↔◌, ◌⊎◌, refl, arith, true, false, none, some, List, [], ◌∷◌, codes,
}
use meshcore_control_bridge.Python.{ok, sqlite_locked}
use meshcore_control_bridge.Storage.{Attempt, Answers, settled, write_transaction}
use meshcore_control_bridge.Storage.Laws.{
  IsAtomic, Retries, write_transaction-IsAtomic, write_transaction-Retries,
}
use meshcore_control_bridge.Dedup.{Row, store_key}
use meshcore_control_bridge.Dedup.Laws.{HoldsAny, store_key-seen_iff}
use meshcore_control_bridge.Dedup.Window.{Call, step, after, seen_or_store_once}
use meshcore_control_bridge.RateLimit.{RateLimiter}
use meshcore_control_bridge.RateLimit.Refine.{
  History, decisions, spec_decisions, decisions-eq-spec_decisions,
}
use meshcore_control_bridge.Telegram.Store.{
  TelegramBridgeRecord, TelegramTables, consume_pending_echo, create_bridge_record, matches,
  observed,
}
use meshcore_control_bridge.Telegram.Store.Echoes.{
  expected, IsUnique, echo_of, consume_pending_echo_lem, added, create_bridge_record-expected,
}
use meshcore_control_bridge.Tests.Data.{message, world, calm, plain, numeral}

-- The first attempt of every write meets a lock.
abbrev busy_first : Answers
busy_first zero = record { begins = some sqlite_locked; commits = none; rolls_back = true }
busy_first (suc n) = calm

abbrev rows : List Row
rows = record { dedup_key = codes "a"; expires_at = 40 } ∷ []

write_transaction-IsAtomic_example :
    IsAtomic busy_first
      (store_key 60 10 (codes "k") [])
      rows
      (write_transaction false 3 50 busy_first (store_key 60 10 (codes "k") []) rows).result
      (write_transaction false 3 50 busy_first (store_key 60 10 (codes "k") []) rows).tables
write_transaction-IsAtomic_example =
    write_transaction-IsAtomic busy_first (store_key 60 10 (codes "k") []) rows false 3 50

write_transaction-Retries_example :
    Retries
      (settled busy_first)
      (store_key 60 10 (codes "k") [])
      0
      50
      3
      rows
      (write_transaction false 3 50 busy_first (store_key 60 10 (codes "k") []) rows)
write_transaction-Retries_example =
    write_transaction-Retries busy_first (store_key 60 10 (codes "k") []) rows 3 50

store_key-seen_iff_example :
    ((store_key 60 10 (codes "k") (codes "a" ∷ []) rows).0 ≡ ok true)
    ↔ HoldsAny (codes "k" ∷ codes "a" ∷ []) 10 rows
store_key-seen_iff_example = store_key-seen_iff 60 10 (codes "k") (codes "a" ∷ []) rows

abbrev first : Call
first = record { in_transaction = false; answers = busy_first; now = 10; message = message }

abbrev again : Call
again = record { in_transaction = false; answers = busy_first; now = 30; message = message }

abbrev other : Call
other = record {
  in_transaction = false;
  answers = busy_first;
  now = 20;
  message = record message { sender_id = "bob" };
}

first_is_fresh : (step plain numeral 60 3 50 first []).result ≡ ok false
unfolding meshcore_control_bridge.Dedup.seen_or_store write_transaction
    meshcore_control_bridge.Storage.write_loop meshcore_control_bridge.Storage.attempt
    meshcore_control_bridge.Storage.is_sqlite_locked meshcore_control_bridge.Dedup.has_any
    meshcore_control_bridge.Dedup.purge meshcore_control_bridge.Dedup.legacy_keys
first_is_fresh = refl

seen_or_store_once_example :
    (step plain numeral 60 3 50 again (
      after plain numeral 60 3 50 (other ∷ []) (step plain numeral 60 3 50 first []).tables)).result
    ≢ ok false
seen_or_store_once_example =
    seen_or_store_once plain numeral 60 3 50 first again (other ∷ []) [] first_is_fresh refl
      (omega arith, tt) (omega arith)

abbrev calls : History
calls = ("a", 1) ∷ ("b", 2) ∷ ("a", 3) ∷ ("a", 70) ∷ []

decisions-eq-spec_decisions_example :
    decisions (record { max_commands = 1; window_seconds = 60; events = [] }) calls
    ≡ spec_decisions 1 60 [] calls
decisions-eq-spec_decisions_example =
    decisions-eq-spec_decisions 1 60 calls
      (omega arith, (omega arith, (omega arith, (omega arith, tt))))

decided : spec_decisions 1 60 [] calls ≡ true ∷ true ∷ false ∷ true ∷ []
unfolding spec_decisions meshcore_control_bridge.RateLimit.Refine.permits
    meshcore_control_bridge.RateLimit.Window.recent
    meshcore_control_bridge.RateLimit.Refine.times_of meshcore_control_bridge.RateLimit.Refine.note
decided = refl

abbrev forwarded : TelegramBridgeRecord
forwarded = record {
  bridge_message_id = 7;
  correlation_id = "corr:1";
  destination_transport = "homeassistant-meshcore";
  destination_room_id = "homeassistant-meshcore:channel:1";
  content_ref_hash = codes "h";
  size_bytes = 2;
  status = "accepted_by_meshcore_transport";
  created_at = 10;
  expires_at = 610;
}

abbrev tables : TelegramTables
tables = record world.telegram { pending = forwarded ∷ [] }

tables-IsUnique : IsUnique tables.pending
unfolding IsUnique meshcore_control_bridge.Telegram.Store.has_id
tables-IsUnique = (refl, tt)

consume_pending_echo_lem_example :
    ((expected (echo_of forwarded) 20 tables.pending ≡ 0)
      × ((consume_pending_echo (echo_of forwarded) 20 tables).0 ≡ ok none)
      × (expected
            (echo_of forwarded)
            20
            (consume_pending_echo (echo_of forwarded) 20 tables).1.pending
          ≡ 0))
    ⊎ ((r : TelegramBridgeRecord) × ((consume_pending_echo (echo_of forwarded) 20 tables).0
          ≡ ok (some (observed r)))
        × (matches (echo_of forwarded) 20 r ≡ true)
        × (suc (
              expected
                (echo_of forwarded)
                20
                (consume_pending_echo (echo_of forwarded) 20 tables).1.pending)
            ≡ expected (echo_of forwarded) 20 tables.pending))
consume_pending_echo_lem_example =
    consume_pending_echo_lem (echo_of forwarded) 20 tables tables-IsUnique

abbrev second : TelegramBridgeRecord
second = record forwarded { bridge_message_id = 8; created_at = 12 }

create_bridge_record-expected_example :
    expected (echo_of forwarded) 20 (create_bridge_record 600 second tables).1.pending
    ≡ expected (echo_of forwarded) 20 tables.pending
      + added (echo_of forwarded) 20 600 second (create_bridge_record 600 second tables).0
create_bridge_record-expected_example =
    create_bridge_record-expected (echo_of forwarded) 20 600 second tables (omega arith)
