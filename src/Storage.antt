-- ===== src/Storage.antt =====
-- storage/database.py: `write_transaction`, which every write to SQLite goes through.
pub mod Laws
use meshcore_control_bridge.Common.{
  ℕ, zero, suc, ◌+◌, ◌*◌, Bool, true, false, ◌&&◌, if◌then◌else◌, Option, none, some, List, [], ◌∷◌,
}
use meshcore_control_bridge.Python.{
  Exn, sqlite_locked, sqlite_error, is_exception, Result, ok, raise,
}

-- What SQLite answers to `BEGIN IMMEDIATE` (or `SAVEPOINT`) and to `COMMIT` (or `RELEASE`) in one
-- attempt, where `none` is success, and whether a `ROLLBACK` succeeds.
pub record Attempt : Type 0 where
  pub begins : Option Exn
  pub commits : Option Exn
  pub rolls_back : Bool

unfoldable pub is_sqlite_locked : Exn → Bool
is_sqlite_locked sqlite_locked = true
is_sqlite_locked _ = false

-- The answers to the attempts, by their number.
abbrev pub Answers : Type 0
Answers = ℕ → Attempt

-- A transaction that was begun and not rolled back is still open, and SQLite refuses to begin
-- another one in it.
abbrev pub behind : Attempt → Attempt → Attempt
behind before next = elim before.begins [
  | some e ↦ next
  | none ↦ if before.rolls_back then next else record next { begins = some sqlite_error }
]

-- The answers as the attempts of the loop get them.
abbrev pub settled : Answers → Answers
settled answers zero = answers 0
settled answers (suc n) = behind (answers n) (answers (suc n))

-- The outcome of a write: what it returns or raises, the tables, and the sleeps in between.
pub record Outcome {ℓ} (S A : Type ℓ) : Type ℓ where
  pub result : Result A
  pub tables : S
  pub sleeps : List ℕ

-- `_rollback_quietly`, which only an `Exception` reaches: back to the first tables, or the second
-- stay.
abbrev pub rollback {ℓ} : {S : Type ℓ} → Bool → Exn → S → S → S
rollback rolls_back e s current = if is_exception e && rolls_back then s else current

module _ {ℓ} {S A : Type ℓ} where
  -- What the operation did stands if it returned and the commit succeeds, or if it is not rolled
  -- back.
  abbrev pub commit : Attempt → S → Result A × S → Result A × S
  commit answer s (raise e, s') = (raise e, rollback answer.rolls_back e s s')
  commit answer s (ok a, s') = elim answer.commits [
    | none ↦ (ok a, s')
    | some e ↦ (raise e, rollback answer.rolls_back e s s')
  ]

  -- One attempt, with the tables at the beginning of the write and those that the attempt before
  -- has left.
  unfoldable pub attempt : Attempt → (S → Result A × S) → S → S → Result A × S
  attempt answer operation s current = elim answer.begins [
    | some e ↦ (raise e, rollback answer.rolls_back e s current)
    | none ↦ commit answer s (operation s)
  ]

  -- The end of a round: another one follows only where the database was locked.
  abbrev pub after_round : Result A → S → ℕ → Outcome S A → Outcome S A
  after_round (ok a) s backoff again = record { result = ok a; tables = s; sleeps = [] }
  after_round (raise e) s backoff again =
      if is_sqlite_locked e
      then record again { sleeps = backoff ∷ again.sleeps }
      else record { result = raise e; tables = s; sleeps = [] }

  -- The loop of `write_transaction` outside a transaction. `left` is `retries - attempt`, and
  -- `number` is `attempt`.
  unfoldable pub write_loop : Answers → (S → Result A × S) → ℕ → ℕ → ℕ → S → S → Outcome S A
  write_loop answers operation number backoff zero s current =
      let (result, s') = attempt (answers number) operation s current in
      record { result = result; tables = s'; sleeps = [] }
  write_loop answers operation number backoff (suc left) s current =
      let (result, s') = attempt (answers number) operation s current in
      after_round result s' backoff
        (write_loop answers operation (suc number) (backoff * 2) left s s')

  -- Inside a transaction a savepoint takes the place of the loop.
  unfoldable pub write_savepoint : Attempt → (S → Result A × S) → S → Outcome S A
  write_savepoint answer operation s =
      let (result, s') = attempt answer operation s s in
      record { result = result; tables = s'; sleeps = [] }

  unfoldable pub write_transaction : Bool → ℕ → ℕ → Answers → (S → Result A × S) → S → Outcome S A
  write_transaction in_transaction retries initial_backoff answers operation s =
      elim in_transaction [
        | true ↦ write_savepoint (answers 0) operation s
        | false ↦ write_loop (settled answers) operation 0 initial_backoff retries s s
      ]
