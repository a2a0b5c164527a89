-- ===== src/RateLimit/Window.antt =====
-- The times within a window, and what dropping the oldest events leaves of them.
use meshcore_control_bridge.Common.{
  ℕ, ◌-◌, ◌≤◌, ◌≡◌, refl, List, [], ◌∷◌, ◌++◌, arith, leb, if◌then◌else◌, All, All-append,
  Bool-cases, inl, inr,
}
use meshcore_control_bridge.RateLimit.{expire}

-- The times that are at most `window` old.
unfoldable pub recent : ℕ → ℕ → List ℕ → List ℕ
recent window now [] = []
recent window now (t ∷ times) =
    let rest = recent window now times in if leb (now - t) window then t ∷ rest else rest

abbrev pub IsSorted : List ℕ → Type 0
IsSorted [] = Unit
IsSorted (t ∷ times) = All (λ u. t ≤ u) times × IsSorted times

module _ (window now : ℕ) where
  recent-All :
      (t : ℕ) (times : List ℕ)
      → now - t ≤ window
      → All (λ u. t ≤ u) times
      → recent window now times ≡ times
  unfolding recent
  recent-All t [] h k = refl
  recent-All t (u ∷ times) h k = ground (arith, recent-All t times h k.1)

  -- On sorted times the loop from the front drops all that are too old.
  pub expire-eq-recent :
      (times : List ℕ) → IsSorted times → expire window now times ≡ recent window now times
  unfolding expire recent
  expire-eq-recent [] h = refl
  expire-eq-recent (t ∷ times) h = ground (arith, expire-eq-recent times h.1, recent-All t times)

  pub recent-append :
      (times more : List ℕ)
      → recent window now (times ++ more) ≡ recent window now times ++ recent window now more
  unfolding recent
  recent-append [] more = refl
  recent-append (t ∷ times) more = ground (arith, recent-append times more)

  -- What is too old stays too old.
  pub recent-recent :
      (before : ℕ) (times : List ℕ)
      → before ≤ now
      → recent window now (recent window before times) ≡ recent window now times
  unfolding recent
  recent-recent before [] h = refl
  recent-recent before (t ∷ times) h = ground (arith, recent-recent before times)

  pub All-recent {ℓ} :
      (P : ℕ → Type ℓ) (times : List ℕ) → All P times → All P (recent window now times)
  unfolding recent
  All-recent P [] h = tt
  All-recent P (t ∷ times) h = elim (Bool-cases (leb (now - t) window)) [
    | inl live ↦ rw live (h.0, All-recent P times h.1)
    | inr old ↦ rw old (All-recent P times h.1)
  ]

  pub recent-IsSorted : (times : List ℕ) → IsSorted times → IsSorted (recent window now times)
  unfolding recent
  recent-IsSorted [] h = tt
  recent-IsSorted (t ∷ times) h = elim (Bool-cases (leb (now - t) window)) [
    | inl live ↦ rw live (All-recent (λ u. t ≤ u) times h.0, recent-IsSorted times h.1)
    | inr old ↦ rw old (recent-IsSorted times h.1)
  ]

pub append-IsSorted :
    (times : List ℕ) (now : ℕ)
    → IsSorted times
    → All (λ u. u ≤ now) times
    → IsSorted (times ++ now ∷ []) × All (λ u. u ≤ now) (times ++ now ∷ [])
append-IsSorted [] now h k = omega arith
append-IsSorted (t ∷ times) now h k =
    let (s, b) = append-IsSorted times now h.1 k.1 in
    ((All-append _ times (now ∷ []) h.0 (k.0, tt), s), (k.0, b))
