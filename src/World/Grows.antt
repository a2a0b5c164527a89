-- ===== src/World/Grows.antt =====
-- Lists of the state that an action leaves alone, or that it extends by at most one element.
use meshcore_control_bridge.Common.{
  ◌≡◌, ◌⊎◌, inl, inr, refl, ◌∙◌, Bool, true, false, List, [], ◌∷◌, ◌++◌, if◌then◌else◌, Bool-cases,
}
use meshcore_control_bridge.Python.{Exn, Result, ok, raise, is_sqlite_error}
use meshcore_control_bridge.Text.Utf8.{Text}
use meshcore_control_bridge.Auth.{AuthorizedUser}
use meshcore_control_bridge.Models.{OutboundMessage}
use meshcore_control_bridge.World.Exec.{
  World, Exec, continue, ◌>>=◌, guarded_sqlite, recover_sqlite,
}
use meshcore_control_bridge.World.Keeps.{Keeps}

-- The list is the same, or it has one more element, with the property.
abbrev pub AtMostOne : {X : Type 0} → (X → Type 0) → List X → List X → Type 0
AtMostOne {X} P before after = (after ≡ before) ⊎ ((x : X) × (after ≡ before ++ x ∷ []) × P x)

pub AtMostOne-same :
    {X : Type 0} (P : X → Type 0) {before middle after : List X}
    → after ≡ middle
    → AtMostOne P before middle
    → AtMostOne P before after
AtMostOne-same P e (inl same) = inl (e ∙ same)
AtMostOne-same P e (inr (x, grown, p)) = inr (x, e ∙ grown, p)

pub AtMostOne-from :
    {X : Type 0} (P : X → Type 0) {before middle after : List X}
    → middle ≡ before
    → AtMostOne P middle after
    → AtMostOne P before after
AtMostOne-from P e (inl same) = inl (same ∙ e)
AtMostOne-from P e (inr (x, grown, p)) = inr (x, rw e at grown, p)

-- A part of the state stays as it is.
pub record Fixes {X : Type 0} (part : World → X) {A : Type 0} (m : Exec A) : Type 0 where
  pub at : (w : World) → part (m w).1 ≡ part w

pub record Grows {X : Type 0} (part : World → List X) (P : X → Type 0) {A : Type 0} (m : Exec A)
    : Type 0 where
  pub at : (w : World) → AtMostOne P (part w) (part (m w).1)

abbrev pub sent_of : World → List OutboundMessage
sent_of w = w.sent

abbrev pub handled_of : World → List (Text × AuthorizedUser)
handled_of w = w.handled

module _ {A : Type 0} {m : Exec A} where
  pub Fixes-sent : Keeps m → Fixes sent_of m
  Fixes-sent k = record { at = λ w. (k.at w).sent }

  pub Fixes-handled : Keeps m → Fixes handled_of m
  Fixes-handled k = record { at = λ w. (k.at w).handled }

module _ {X A : Type 0} (part : World → X) where
  pub Fixes-if :
      (b : Bool) (m n : Exec A) → Fixes part m → Fixes part n → Fixes part (if b then m else n)
  Fixes-if true m n p q = p
  Fixes-if false m n p q = q

module _ {X A B : Type 0} (part : World → X) where
  pub Fixes-bind :
      (m : Exec A) (f : A → Exec B)
      → Fixes part m
      → ((a : A) → Fixes part (f a))
      → Fixes part (m >>= f)
  unfolding ◌>>=◌
  Fixes-bind m f p q = record { at = λ w. next (m w).0 (m w).1 ∙ p.at w }
    where
      next : (r : Result A) (w : World) → part (continue r f w).1 ≡ part w
      next (ok a) w = (q a).at w
      next (raise e) w = refl

pub guarded_sqlite-Fixes :
    {X A : Type 0} (part : World → X) (mark : Exn → World → World) (fallback : A) (m : Exec A)
    → ((e : Exn) (w : World) → part (mark e w) ≡ part w)
    → Fixes part m
    → Fixes part (guarded_sqlite mark fallback m)
unfolding guarded_sqlite
guarded_sqlite-Fixes part mark fallback m h q = record {
  at = λ w. recovered (m w).0 (m w).1 ∙ q.at w;
}
  where
    recovered : (r : Result _) (w : World) → part (recover_sqlite mark fallback (r, w)).1 ≡ part w
    recovered (ok a) w = refl
    recovered (raise e) w = elim (Bool-cases (is_sqlite_error e)) [
      | inl sqlite ↦ rw sqlite (h e w)
      | inr passed ↦ rw passed refl
    ]

module _ {X A : Type 0} (part : World → List X) (P : X → Type 0) where
  pub Grows-fixed : (m : Exec A) → Fixes part m → Grows part P m
  Grows-fixed m p = record { at = λ w. inl (p.at w) }

  pub Grows-if :
      (b : Bool) (m n : Exec A)
      → Grows part P m
      → Grows part P n
      → Grows part P (if b then m else n)
  Grows-if true m n p q = p
  Grows-if false m n p q = q

  pub Grows-weaken :
      (Q : X → Type 0) (m : Exec A) → ((x : X) → P x → Q x) → Grows part P m → Grows part Q m
  Grows-weaken Q m h g = record { at = λ w. weak w (g.at w) }
    where
      weak : (w : World) → AtMostOne P (part w) (part (m w).1) → AtMostOne Q (part w) (part (m w).1)
      weak w (inl e) = inl e
      weak w (inr (x, e, p)) = inr (x, e, h x p)

module _ {X A B : Type 0} (part : World → List X) (P : X → Type 0) (m : Exec A)
    (f : A → Exec B) where
  -- The second action may add, after one that does not.
  pub Grows-after : Fixes part m → ((a : A) → Grows part P (f a)) → Grows part P (m >>= f)
  unfolding ◌>>=◌
  Grows-after p q = record { at = λ w. next w (m w).0 (m w).1 (p.at w) }
    where
      next :
          (w : World) (r : Result A) (w' : World)
          → part w' ≡ part w
          → AtMostOne P (part w) (part (continue r f w').1)
      next w (ok a) w' e = rw⁻¹ e ((q a).at w')
      next w (raise e') w' e = inl e

  -- The first action may add, before one that does not.
  pub Grows-before : Grows part P m → ((a : A) → Fixes part (f a)) → Grows part P (m >>= f)
  unfolding ◌>>=◌
  Grows-before p q = record { at = λ w. next w (m w).0 (m w).1 (p.at w) }
    where
      rest : (r : Result A) (w' : World) → part (continue r f w').1 ≡ part w'
      rest (ok a) w' = (q a).at w'
      rest (raise e) w' = refl

      next :
          (w : World) (r : Result A) (w' : World)
          → AtMostOne P (part w) (part w')
          → AtMostOne P (part w) (part (continue r f w').1)
      next w r w' (inl e) = inl (rest r w' ∙ e)
      next w r w' (inr (x, e, p)) = inr (x, rest r w' ∙ e, p)
