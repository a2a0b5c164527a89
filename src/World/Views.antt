-- ===== src/World/Views.antt =====
-- What an action adds to a list, told by a part of the state at its beginning.
use meshcore_control_bridge.Common.{◌≡◌, inl, inr, Bool, true, false, List, if◌then◌else◌}
use meshcore_control_bridge.Python.{Result, ok, raise}
use meshcore_control_bridge.World.Exec.{World, Exec, continue, ◌>>=◌}
use meshcore_control_bridge.World.Grows.{AtMostOne, Fixes, Grows}

pub record GrowsBy {V X : Type 0} (view : World → V) (part : World → List X) (P : V → X → Type 0)
    {A : Type 0} (m : Exec A) : Type 0 where
  pub at : (w : World) → AtMostOne (P (view w)) (part w) (part (m w).1)

pub AtMostOne-weaken :
    {X : Type 0} (P Q : X → Type 0) {before after : List X}
    → ((x : X) → P x → Q x)
    → AtMostOne P before after
    → AtMostOne Q before after
AtMostOne-weaken P Q h (inl same) = inl same
AtMostOne-weaken P Q h (inr (x, grown, p)) = inr (x, grown, h x p)

module _ {V X A : Type 0} (view : World → V) (part : World → List X) (P : V → X → Type 0) where
  pub GrowsBy-fixed : (m : Exec A) → Fixes part m → GrowsBy view part P m
  GrowsBy-fixed m p = record { at = λ w. inl (p.at w) }

  pub GrowsBy-if :
      (b : Bool) (m n : Exec A)
      → GrowsBy view part P m
      → GrowsBy view part P n
      → GrowsBy view part P (if b then m else n)
  GrowsBy-if true m n p q = p
  GrowsBy-if false m n p q = q

  pub GrowsBy-plain :
      (Q : X → Type 0) (m : Exec A)
      → ((v : V) (x : X) → Q x → P v x)
      → Grows part Q m
      → GrowsBy view part P m
  GrowsBy-plain Q m h g = record { at = λ w. AtMostOne-weaken Q (P (view w)) (h (view w)) (g.at w) }

module _ {V X A B : Type 0} (view : World → V) (part : World → List X) (P : V → X → Type 0)
    (m : Exec A) (f : A → Exec B) where
  -- The second action may add, after one that changes neither the list nor the view.
  pub GrowsBy-after :
      Fixes view m
      → Fixes part m
      → ((a : A) → GrowsBy view part P (f a))
      → GrowsBy view part P (m >>= f)
  unfolding ◌>>=◌
  GrowsBy-after s p q = record { at = λ w. next w (m w).0 (m w).1 (s.at w) (p.at w) }
    where
      next :
          (w : World) (r : Result A) (w' : World)
          → view w' ≡ view w
          → part w' ≡ part w
          → AtMostOne (P (view w)) (part w) (part (continue r f w').1)
      next w (ok a) w' seen e = rw⁻¹ (seen, e) ((q a).at w')
      next w (raise x) w' seen e = inl e
