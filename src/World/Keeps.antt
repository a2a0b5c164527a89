-- ===== src/World/Keeps.antt =====
-- What an action leaves alone, one rule for each way to build an action.
use meshcore_control_bridge.Common.{
  ℕ, suc, ◌≡◌, refl, ◌∙◌, String, Bool, true, false, Option, none, some, inl, inr, if◌then◌else◌,
  Bool-cases,
}
use meshcore_control_bridge.Python.{Exn, Result, ok, raise, is_sqlite_error, is_exception}
use meshcore_control_bridge.World.Exec.{
  World, Environment, Exec, continue, ◌>>=◌, pure, throw, audit_write, record_event,
  mark_audit_degraded, recover, guarded,
}
use meshcore_control_bridge.World.Events.{EventKind}

-- The part of the state that decides about messages, and what has left the bridge.
pub record SameTraffic (w w' : World) : Type 0 where
  pub rows : w'.rows ≡ w.rows
  pub limiter : w'.limiter ≡ w.limiter
  pub sent : w'.sent ≡ w.sent
  pub handled : w'.handled ≡ w.handled

pub SameTraffic-refl : (w : World) → SameTraffic w w
SameTraffic-refl w = record { rows = refl; limiter = refl; sent = refl; handled = refl }

pub SameTraffic-trans : {u v w : World} → SameTraffic u v → SameTraffic v w → SameTraffic u w
SameTraffic-trans p q = record {
  rows = q.rows ∙ p.rows;
  limiter = q.limiter ∙ p.limiter;
  sent = q.sent ∙ p.sent;
  handled = q.handled ∙ p.handled;
}

-- The action changes none of it, whether it returns or raises.
pub record Keeps {A : Type 0} (m : Exec A) : Type 0 where
  pub at : (w : World) → SameTraffic w (m w).1

module _ {A : Type 0} where
  pub Keeps-pure : (a : A) → Keeps (pure a)
  unfolding pure
  Keeps-pure a = record { at = SameTraffic-refl }

  pub Keeps-throw : (e : Exn) → Keeps (throw {A = A} e)
  unfolding throw
  Keeps-throw e = record { at = SameTraffic-refl }

  pub Keeps-if : (b : Bool) (m n : Exec A) → Keeps m → Keeps n → Keeps (if b then m else n)
  Keeps-if true m n p q = p
  Keeps-if false m n p q = q

module _ {A B : Type 0} where
  pub Keeps-bind :
      (m : Exec A) (f : A → Exec B) → Keeps m → ((a : A) → Keeps (f a)) → Keeps (m >>= f)
  unfolding ◌>>=◌
  Keeps-bind m f p q = record { at = λ w. SameTraffic-trans (p.at w) (next (m w).0 (m w).1) }
    where
      next : (r : Result A) (w : World) → SameTraffic w (continue r f w).1
      next (ok a) w = (q a).at w
      next (raise e) w = SameTraffic-refl w

module _ (env : Environment) where
  marked : (e : Exn) (w : World) → SameTraffic w (mark_audit_degraded env e w)
  unfolding mark_audit_degraded
  marked e w = record { rows = refl; limiter = refl; sent = refl; handled = refl }

  pub Keeps-guarded :
      {A : Type 0} (marks : Bool) (fallback m : Exec A)
      → Keeps fallback
      → Keeps m
      → Keeps (guarded env marks fallback m)
  unfolding guarded
  Keeps-guarded {A} marks fallback m p q = record {
    at = λ w. SameTraffic-trans (q.at w) (recovered (m w).0 (m w).1);
  }
    where
      fell :
          (b : Bool) (e : Exn) (w : World)
          → SameTraffic w (fallback (if b then mark_audit_degraded env e w else w)).1
      fell true e w = SameTraffic-trans (marked e w) (p.at (mark_audit_degraded env e w))
      fell false e w = p.at w

      recovered : (r : Result A) (w : World) → SameTraffic w (recover env marks fallback (r, w)).1
      recovered (ok a) w = SameTraffic-refl w
      recovered (raise e) w = elim (Bool-cases (is_sqlite_error e)) [
        | inl sqlite ↦ rw sqlite (fell marks e w)
        | inr no_sqlite ↦ elim (Bool-cases (is_exception e)) [
          | inl exception ↦ rw (no_sqlite, exception) (p.at w)
          | inr cancels ↦ rw (no_sqlite, cancels) (SameTraffic-refl w)
        ]
      ]

  pub Keeps-audit_write :
      (change : ℕ → World → World)
      → ((n : ℕ) (w : World) → SameTraffic w (change n w))
      → Keeps (audit_write env change)
  unfolding audit_write
  Keeps-audit_write change h = record { at = λ w. answered w (env.audit_fault w.reads) }
    where
      answered :
          (w : World) (o : Option Exn)
          → SameTraffic w (audit_write (record env { audit_fault = λ _. o }) change w).1
      answered w none =
          SameTraffic-trans (record { rows = refl; limiter = refl; sent = refl; handled = refl })
            (h w.reads (record w { reads = suc w.reads }))
      answered w (some e) = record { rows = refl; limiter = refl; sent = refl; handled = refl }

  pub Keeps-record_event :
      (kind : EventKind) (causation : Option ℕ) (correlation : String)
      → Keeps (record_event env kind causation correlation)
  unfolding record_event
  Keeps-record_event kind causation correlation =
      Keeps-audit_write _
        (λ n w. record { rows = refl; limiter = refl; sent = refl; handled = refl })

pub ruleset keeps_rules =
    (Keeps-pure, Keeps-throw, Keeps-if, Keeps-bind, Keeps-guarded, Keeps-record_event)
