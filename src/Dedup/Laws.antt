-- ===== src/Dedup/Laws.antt =====
-- Within the window a second message with a key is never fresh, and a message is a duplicate
-- exactly when a row for one of its keys has not expired.
use meshcore_control_bridge.Common.{
  ℕ, ◌+◌, ◌≤◌, ◌≡◌, ◌≢◌, ◌↔◌, ◌⊎◌, refl, true, false, List, [], ◌∷◌, arith,
}
use meshcore_control_bridge.Python.{ok}
use meshcore_control_bridge.Text.Utf8.{Text}
use meshcore_control_bridge.Dedup.{text_eq, Row, purge, has_key, has_any, store_key}

pub text_eq_iff : (s t : Text) → (text_eq s t ≡ true) ↔ (s ≡ t)
unfolding text_eq
text_eq_iff [] [] = (λ _. refl, λ _. refl)
text_eq_iff [] (d ∷ t) = (λ h. cc, λ h. cc)
text_eq_iff (c ∷ s) [] = (λ h. cc, λ h. cc)
text_eq_iff (c ∷ s) (d ∷ t) = ground (arith, text_eq_iff s t)

-- A row for the key that is still there at the time `until`.
abbrev pub Holds : Text → ℕ → List Row → Type 0
Holds key until [] = ⊥
Holds key until (r ∷ rows) = ((r.dedup_key ≡ key) × (until ≤ r.expires_at)) ⊎ Holds key until rows

abbrev pub HoldsAny : List Text → ℕ → List Row → Type 0
HoldsAny [] until rows = ⊥
HoldsAny (key ∷ keys) until rows = Holds key until rows ⊎ HoldsAny keys until rows

pub has_key-purge :
    (key : Text) (now : ℕ) (rows : List Row)
    → (has_key key (purge now rows) ≡ true) ↔ Holds key now rows
unfolding has_key purge
has_key-purge key now [] = (λ h. cc, λ h. absurd h)
has_key-purge key now (r ∷ rows) =
    ground (arith, has_key-purge key now rows, text_eq_iff r.dedup_key key)

has_any-purge :
    (keys : List Text) (now : ℕ) (rows : List Row)
    → (has_any keys (purge now rows) ≡ true) ↔ HoldsAny keys now rows
unfolding has_any
has_any-purge [] now rows = (λ h. cc, λ h. absurd h)
has_any-purge (key ∷ keys) now rows =
    ground (arith, has_key-purge key now rows, has_any-purge keys now rows)

-- The transaction reports a duplicate exactly when a row for the key, or for a key of the earlier
-- schema, has not expired.
pub store_key-seen_iff :
    (window now : ℕ) (key : Text) (legacy : List Text) (rows : List Row)
    → ((store_key window now key legacy rows).0 ≡ ok true) ↔ HoldsAny (key ∷ legacy) now rows
unfolding store_key
store_key-seen_iff window now key legacy rows =
    ground (arith, has_any-purge (key ∷ legacy) now rows)

pub Holds-purge :
    (key : Text) (until now : ℕ) (rows : List Row)
    → now ≤ until
    → Holds key until rows
    → Holds key until (purge now rows)
unfolding purge
Holds-purge key until now [] h k = k
Holds-purge key until now (r ∷ rows) h k = ground (arith, Holds-purge key until now rows h)

pub Holds-mono :
    (key : Text) (until now : ℕ) (rows : List Row)
    → now ≤ until
    → Holds key until rows
    → Holds key now rows
Holds-mono key until now [] h k = k
Holds-mono key until now (r ∷ rows) h k = ground (arith, Holds-mono key until now rows h)

module _ (window now : ℕ) (key : Text) (legacy : List Text) (rows : List Row) where
  -- a fresh key has a row afterwards
  pub store_key-Holds :
      (store_key window now key legacy rows).0 ≡ ok false
      → Holds key (now + window) (store_key window now key legacy rows).1
  unfolding store_key
  store_key-Holds h = ground arith

  -- rows for other keys stay until they expire
  pub Holds-store_key :
      (other : Text) (until : ℕ)
      → now ≤ until
      → Holds other until rows
      → Holds other until (store_key window now key legacy rows).1
  unfolding store_key
  Holds-store_key other until h k = ground (arith, Holds-purge other until now rows h k)

  pub store_key-not_fresh : Holds key now rows → (store_key window now key legacy rows).0 ≢ ok false
  unfolding store_key
  store_key-not_fresh h = ground (arith, has_any-purge (key ∷ legacy) now rows)
