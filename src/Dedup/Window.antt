-- ===== src/Dedup/Window.antt =====
-- Sequences of messages: what was once fresh is not fresh again within the window.
use meshcore_control_bridge.Common.{ℕ, ◌+◌, ◌≤◌, ◌≡◌, ◌≢◌, ap, Bool, false, List, [], ◌∷◌, All}
use meshcore_control_bridge.Models.{InboundMessage}
use meshcore_control_bridge.Python.{ok}
use meshcore_control_bridge.Storage.{Answers, Outcome}
use meshcore_control_bridge.Storage.Laws.{atomic_keeps, atomic_ok, write_transaction-IsAtomic}
use meshcore_control_bridge.Text.Utf8.{Text}
use meshcore_control_bridge.Dedup.{Row, store_key, key_of, legacy_keys, seen_or_store}
use meshcore_control_bridge.Dedup.Laws.{
  Holds, Holds-mono, store_key-Holds, Holds-store_key, store_key-not_fresh,
}

-- A call: inside a transaction or not, the answers of SQLite, the time and the message.
pub record Call : Type 0 where
  pub in_transaction : Bool
  pub answers : Answers
  pub now : ℕ
  pub message : InboundMessage

module _ (sha256 : Text → Text) (decimal : ℕ → Text) (window retries backoff : ℕ) where
  abbrev pub step : Call → List Row → Outcome (List Row) Bool
  step c rows =
      seen_or_store sha256 decimal window c.in_transaction retries backoff c.answers c.now c.message
        rows

  unfoldable pub after : List Call → List Row → List Row
  after [] rows = rows
  after (c ∷ calls) rows = after calls (step c rows).tables

  step-Holds :
      (c : Call) (rows : List Row) (key : Text) (until : ℕ)
      → c.now ≤ until
      → Holds key until rows
      → Holds key until (step c rows).tables
  unfolding seen_or_store
  step-Holds c rows key until h k =
      atomic_keeps c.answers
        (store_key window c.now (key_of sha256 decimal c.message)
          (legacy_keys sha256 decimal window c.message))
        rows (Holds key until) _ _
        (write_transaction-IsAtomic c.answers
          (store_key window c.now (key_of sha256 decimal c.message)
            (legacy_keys sha256 decimal window c.message))
          rows c.in_transaction retries backoff)
        k
        (Holds-store_key window c.now (key_of sha256 decimal c.message)
          (legacy_keys sha256 decimal window c.message) rows key until h k)

  after-Holds :
      (calls : List Call) (rows : List Row) (key : Text) (until : ℕ)
      → All (λ c. c.now ≤ until) calls
      → Holds key until rows
      → Holds key until (after calls rows)
  unfolding after
  after-Holds [] rows key until h k = k
  after-Holds (c ∷ calls) rows key until h k =
      after-Holds calls (step c rows).tables key until h.1 (step-Holds c rows key until h.0 k)

  step-stores :
      (c : Call) (rows : List Row)
      → (step c rows).result ≡ ok false
      → Holds (key_of sha256 decimal c.message) (c.now + window) (step c rows).tables
  unfolding seen_or_store
  step-stores c rows h =
      let key = key_of sha256 decimal c.message in
      let legacy = legacy_keys sha256 decimal window c.message in
      let done =
        atomic_ok c.answers (store_key window c.now key legacy) rows _ _ false
          (write_transaction-IsAtomic c.answers (store_key window c.now key legacy) rows
            c.in_transaction retries backoff)
          h in
      rw done at (store_key-Holds window c.now key legacy rows (ap (λ t. t.0) done))

  step-not_fresh :
      (c : Call) (rows : List Row)
      → Holds (key_of sha256 decimal c.message) c.now rows
      → (step c rows).result ≢ ok false
  unfolding seen_or_store
  step-not_fresh c rows h e =
      let key = key_of sha256 decimal c.message in
      let legacy = legacy_keys sha256 decimal window c.message in
      store_key-not_fresh window c.now key legacy rows h (
        ap (λ t. t.0)
          (atomic_ok c.answers (store_key window c.now key legacy) rows _ _ false
            (write_transaction-IsAtomic c.answers (store_key window c.now key legacy) rows
              c.in_transaction retries backoff)
            e))

  -- Once a message was reported fresh, then after any calls in between, some of which may have
  -- failed, another message with the same key is not reported fresh, if no call is later than the
  -- time of the first message plus the window.
  pub seen_or_store_once :
      (first again : Call) (between : List Call) (rows : List Row)
      → (step first rows).result ≡ ok false
      → key_of sha256 decimal again.message ≡ key_of sha256 decimal first.message
      → All (λ c. c.now ≤ first.now + window) between
      → again.now ≤ first.now + window
      → (step again (after between (step first rows).tables)).result ≢ ok false
  seen_or_store_once first again between rows fresh same early in_time = step-not_fresh again _ (
      rw same (
        Holds-mono (key_of sha256 decimal first.message) (first.now + window) again.now _ in_time (
          after-Holds between _ (key_of sha256 decimal first.message) (first.now + window) early
            (step-stores first rows fresh))))
