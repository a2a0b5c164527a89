-- ===== src/Storage/Laws.antt =====
-- A write happens as a whole or not at all, after a bounded number of attempts.
use meshcore_control_bridge.Common.{
  ℕ, zero, suc, ◌+◌, ◌*◌, ◌≤◌, ◌<◌, ◌≡◌, ◌⊎◌, inl, inr, refl, sym, ap, ◌∙◌, Bool, true, false,
  Option, none, some, List, [], ◌∷◌, arith, Bool-cases,
}
use native.Mathlib.Nat.{add-zero}
use meshcore_control_bridge.Python.{Exn, sqlite_locked, is_exception, Result, ok, raise}
use meshcore_control_bridge.Storage.{
  Attempt, is_sqlite_locked, Answers, Outcome, rollback, settled, commit, attempt, after_round,
  write_loop, write_savepoint, write_transaction,
}

module _ {ℓ} {S A : Type ℓ} (answers : Answers) (operation : S → Result A × S) (s : S) where
  -- What a raise leaves: the tables as they were or, only where a rollback failed or the exception
  -- is no `Exception`, those that the operation left.
  abbrev pub IsUndone : Exn → S → Type ℓ
  IsUndone e tables =
      (tables ≡ s)
      ⊎ ((tables ≡ (operation s).1)
          × ((is_exception e ≡ false) ⊎ ((n : ℕ) × ((answers n).rolls_back ≡ false))))

  -- The write is all or nothing: it returns what the operation returns on the tables as they were,
  -- with the tables that the operation leaves, or it raises and is undone.
  abbrev pub IsAtomic : Result A → S → Type ℓ
  IsAtomic (ok a) tables = operation s ≡ (ok a, tables)
  IsAtomic (raise e) tables = IsUndone e tables

  -- What an atomic write keeps: what holds of the tables before, and of what the operation leaves.
  pub atomic_keeps :
      (P : S → Type ℓ) (r : Result A) (tables : S)
      → IsAtomic r tables
      → P s
      → P (operation s).1
      → P tables
  atomic_keeps P (ok a) tables h before after = rw h at after
  atomic_keeps P (raise e) tables (inl h) before after = rw h before
  atomic_keeps P (raise e) tables (inr h) before after = rw (h.0) after

  pub atomic_ok :
      (r : Result A) (tables : S) (a : A)
      → IsAtomic r tables
      → r ≡ ok a
      → operation s ≡ (ok a, tables)
  atomic_ok (ok b) tables a h e = ground (arith, h, e)
  atomic_ok (raise x) tables a h e = cc

  -- The tables that an attempt finds.
  abbrev IsLeft : S → Type ℓ
  IsLeft current = (current ≡ s) ⊎ (current ≡ (operation s).1)

  rollback-IsUndone :
      (n : ℕ) (rolls_back : Bool) (e : Exn) (current : S)
      → rolls_back ≡ (answers n).rolls_back
      → IsLeft current
      → IsUndone e (rollback rolls_back e s current)
  rollback-IsUndone n rolls_back e current same h = elim (Bool-cases (is_exception e)) [
    | inr severe ↦
        let stays : rollback rolls_back e s current ≡ current = rw severe refl in
        rw stays (kept h (inl severe))
    | inl mild ↦ elim (Bool-cases rolls_back) [
      | inl works ↦ inl (rw (mild, works) refl)
      | inr fails ↦
          let stays : rollback rolls_back e s current ≡ current = rw (mild, fails) refl in
          rw stays (kept h (inr (n, sym same ∙ fails)))
    ]
  ]
    where
      kept :
          IsLeft current
          → (is_exception e ≡ false) ⊎ ((n : ℕ) × ((answers n).rolls_back ≡ false))
          → IsUndone e current
      kept (inl p) why = inl p
      kept (inr p) why = inr (p, why)

  commit-IsAtomic :
      (n : ℕ) (begins commits : Option Exn) (rolls_back : Bool) (r : Result A × S)
      → rolls_back ≡ (answers n).rolls_back
      → operation s ≡ r
      → IsAtomic
          (commit (record { begins = begins; commits = commits; rolls_back = rolls_back }) s r).0
          (commit (record { begins = begins; commits = commits; rolls_back = rolls_back }) s r).1
  commit-IsAtomic n begins none rolls_back (ok a, s') same h = h
  commit-IsAtomic n begins (some e) rolls_back (ok a, s') same h =
      rollback-IsUndone n rolls_back e s' same (inr (sym (ap (λ t. t.1) h)))
  commit-IsAtomic n begins commits rolls_back (raise e, s') same h =
      rollback-IsUndone n rolls_back e s' same (inr (sym (ap (λ t. t.1) h)))

  attempt-IsAtomic :
      (n : ℕ) (answer : Attempt) (current : S)
      → answer.rolls_back ≡ (answers n).rolls_back
      → IsLeft current
      → IsAtomic (attempt answer operation s current).0 (attempt answer operation s current).1
  unfolding attempt
  attempt-IsAtomic n answer current same h = begun answer.begins
    where
      begun :
          (begins : Option Exn)
          → IsAtomic
              (attempt (record answer { begins = begins }) operation s current).0
              (attempt (record answer { begins = begins }) operation s current).1
      begun (some e) = rollback-IsUndone n answer.rolls_back e current same h
      begun none = commit-IsAtomic n none answer.commits answer.rolls_back (operation s) same refl

  after_round-IsAtomic :
      (s' : S) (backoff : ℕ) (r : Result A) (again : Outcome S A)
      → IsAtomic r s'
      → (IsLeft s' → IsAtomic again.result again.tables)
      → IsAtomic (after_round r s' backoff again).result (after_round r s' backoff again).tables
  after_round-IsAtomic s' backoff (ok a) again h k = h
  after_round-IsAtomic s' backoff (raise e) again h k = elim (Bool-cases (is_sqlite_locked e)) [
    | inl locked ↦ rw locked (k (left h))
    | inr failed ↦ rw failed h
  ]
    where
      left : IsUndone e s' → IsLeft s'
      left (inl p) = inl p
      left (inr p) = inr p.0

  write_loop-IsAtomic :
      (given : Answers)
      → ((n : ℕ) → (given n).rolls_back ≡ (answers n).rolls_back)
      → (number backoff left : ℕ) (current : S) → IsLeft current
      → IsAtomic
          (write_loop given operation number backoff left s current).result
          (write_loop given operation number backoff left s current).tables
  unfolding write_loop
  write_loop-IsAtomic given same number backoff zero current h =
      attempt-IsAtomic number (given number) current (same number) h
  write_loop-IsAtomic given same number backoff (suc left) current h =
      let (r, s') = attempt (given number) operation s current in
      after_round-IsAtomic s' backoff r _
        (attempt-IsAtomic number (given number) current (same number) h)
        (λ k. write_loop-IsAtomic given same (suc number) (backoff * 2) left s' k)

  settled-same : (n : ℕ) → (settled answers n).rolls_back ≡ (answers n).rolls_back
  settled-same zero = refl
  settled-same (suc n) = ground arith

  -- However SQLite answers, its rollbacks included, in a transaction or not: a write either returns
  -- what its operation returns on the tables as they were, and leaves the tables that the operation
  -- leaves, or it raises. Then it leaves the tables as they were, or, only where a rollback failed
  -- or the exception is no `Exception`, those that the operation leaves.
  pub write_transaction-IsAtomic :
      (in_transaction : Bool) (retries backoff : ℕ)
      → IsAtomic
          (write_transaction in_transaction retries backoff answers operation s).result
          (write_transaction in_transaction retries backoff answers operation s).tables
  unfolding write_transaction write_savepoint
  write_transaction-IsAtomic true retries backoff = attempt-IsAtomic 0 (answers 0) s refl (inl refl)
  write_transaction-IsAtomic false retries backoff =
      write_loop-IsAtomic (settled answers) settled-same 0 backoff retries s (inl refl)

-- The sleeps of `n` retries: each is twice the one before.
abbrev pub doubling : ℕ → ℕ → List ℕ
doubling backoff zero = []
doubling backoff (suc n) = backoff ∷ doubling (backoff * 2) n

module _ {ℓ} {S A : Type ℓ} where
  -- The rounds of the loop: `n` sleeps stand before the attempt that decided; `n` is at most what
  -- the retries allow, every earlier attempt met a lock, and the last did so only if no retry was
  -- left.
  abbrev pub Locks : Answers → (S → Result A × S) → ℕ → S → Type ℓ
  Locks answers operation number s =
      (attempt (answers number) operation s s).0 ≡ raise sqlite_locked

  abbrev pub Retries : Answers → (S → Result A × S) → ℕ → ℕ → ℕ → S → Outcome S A → Type ℓ
  Retries answers operation number backoff left s o =
      (n : ℕ) × (n ≤ left)
      × (o.sleeps ≡ doubling backoff n)
      × (o.result ≡ (attempt (answers (number + n)) operation s s).0)
      × (n < left → ¬ Locks answers operation (number + n) s)
      × ((i : ℕ) → i < n → Locks answers operation (number + i) s)

  module _ (answers : Answers) (operation : S → Result A × S) (s : S) where
    -- the tables that an attempt finds do not reach its result
    attempt-same :
        (number : ℕ) (current : S)
        → (attempt (answers number) operation s current).0
          ≡ (attempt (answers number) operation s s).0
    unfolding attempt
    attempt-same number current = begun (answers number).begins
      where
        begun :
            (begins : Option Exn)
            → (attempt (record (answers number) { begins = begins }) operation s current).0
              ≡ (attempt (record (answers number) { begins = begins }) operation s s).0
        begun none = refl
        begun (some e) = refl

    not_locked :
        (number : ℕ) (r : Result A)
        → (attempt (answers number) operation s s).0 ≡ r
        → ((e : Exn) → r ≡ raise e → is_sqlite_locked e ≡ false)
        → ¬ Locks answers operation number s
    unfolding is_sqlite_locked
    not_locked number r h k l = cc (k sqlite_locked (sym h ∙ l))

    locks :
        (number : ℕ) (e : Exn)
        → (attempt (answers number) operation s s).0 ≡ raise e
        → is_sqlite_locked e ≡ true
        → Locks answers operation number s
    unfolding is_sqlite_locked
    locks number sqlite_locked h k = h
    locks number _ h k = cc

    -- the retries of one more round, from those of the rounds behind it
    one_more :
        (number backoff left : ℕ) (again : Outcome S A)
        → Locks answers operation number s
        → Retries answers operation (suc number) (backoff * 2) left s again
        → Retries answers operation number backoff
            (suc left)
            s
            (record again { sleeps = backoff ∷ again.sleeps })
    one_more number backoff left again l (n, le, sleeps, result, last, before) = (
      suc n,
      omega arith,
      ap (◌∷◌ backoff) sleeps,
      rw (shift n) result,
      λ h. rw (shift n) (last (omega arith)),
      earlier,
    )
      where
        shift : (i : ℕ) → number + suc i ≡ suc number + i
        shift i = omega arith

        earlier : (i : ℕ) → i < suc n → Locks answers operation (number + i) s
        earlier zero h = rw add-zero l
        earlier (suc i) h = rw (shift i) (before i (omega arith))

    write_loop-Retries :
        (number backoff left : ℕ) (current : S)
        → Retries answers operation number backoff left s
            (write_loop answers operation number backoff left s current)
    unfolding write_loop
    write_loop-Retries number backoff zero current = (
      0,
      omega arith,
      refl,
      rw add-zero (attempt-same number current),
      λ h. absurd (omega arith),
      λ i h. absurd (omega arith),
    )
    write_loop-Retries number backoff (suc left) current =
        let (r, s') = attempt (answers number) operation s current in
        round r s' (sym (attempt-same number current))
          (write_loop-Retries (suc number) (backoff * 2) left s')
      where
        round :
            (r : Result A) (s' : S)
            → (attempt (answers number) operation s s).0 ≡ r
            → Retries answers operation
                (suc number)
                (backoff * 2)
                left
                s
                (write_loop answers operation (suc number) (backoff * 2) left s s')
            → Retries answers operation number backoff (suc left) s (
                after_round r s' backoff
                  (write_loop answers operation (suc number) (backoff * 2) left s s'))
        round (ok a) s' h again = (
          0,
          omega arith,
          refl,
          rw (add-zero, h),
          λ _. rw add-zero (not_locked number (ok a) h (λ e p. cc)),
          λ i k. absurd (omega arith),
        )
        round (raise e) s' h again = elim (Bool-cases (is_sqlite_locked e)) [
          | inl locked ↦ rw locked (
              one_more number backoff left
                (write_loop answers operation (suc number) (backoff * 2) left s s')
                (locks number e h locked) again)
          | inr failed ↦ rw failed (
            0,
            omega arith,
            refl,
            rw (add-zero, h),
            λ _. rw add-zero (not_locked number (raise e) h (λ e' p. cc)),
            λ i k. absurd (omega arith),
          )
        ]

-- Outside a transaction, with the answers of SQLite given by the number of the attempt, where a
-- failed rollback leaves a transaction open and so refuses the next: some number of sleeps, at most
-- `retries` and each twice the one before, precedes the attempt whose result is returned; every
-- attempt before that one met a lock, and that one met a lock only if no retry was left.
pub write_transaction-Retries {ℓ} :
    {S A : Type ℓ} (answers : Answers) (operation : S → Result A × S) (s : S) (retries backoff : ℕ)
    → Retries
        (settled answers)
        operation
        0
        backoff
        retries
        s
        (write_transaction false retries backoff answers operation s)
unfolding write_transaction
write_transaction-Retries answers operation s retries backoff =
    write_loop-Retries (settled answers) operation s 0 backoff retries s
