-- ===== src/Health/Render/Duration.antt =====
-- bridge_health.py: `relative_duration` and `relative_time`, on whole seconds.
use meshcore_control_bridge.Common.{
  ℕ, ◌+◌, ◌-◌, ◌*◌, ◌/◌, ◌%◌, ◌≤◌, ◌<◌, Bool, true, Bool-cases, inl, inr, Option, none, some, ◌++◌,
  ltb, leb, ◌==◌, if◌then◌else◌, codes, arith,
}
use meshcore_control_bridge.Text.Utf8.{Text}

-- The unit that a duration is shown in, with its parts.
pub data Duration : Type 0 where
  now : Duration
  seconds minutes : ℕ → Duration
  hours days : ℕ → ℕ → Duration

unfoldable pub duration_of : ℕ → Duration
duration_of n =
    if n == 0
    then now
    else if ltb n 60
    then seconds n
    else if ltb (n / 60) 60
    then minutes (n / 60)
    else if ltb (n / 60 / 60) 24
    then hours (n / 60 / 60) (n / 60 % 60)
    else days (n / 60 / 60 / 24) (n / 60 / 60 % 24)

module _ (decimal : ℕ → Text) where
  abbrev pub separator : Bool → Text
  separator compact = if compact then codes "" else codes " "

  abbrev pub render_duration : Bool → Duration → Text
  render_duration compact now = codes "now"
  render_duration compact (seconds n) = decimal n ++ codes "s"
  render_duration compact (minutes n) = decimal n ++ codes "m"
  render_duration compact (hours n m) =
      decimal n ++ codes "h" ++ separator compact ++ decimal m ++ codes "m"
  render_duration compact (days n h) =
      decimal n ++ codes "d" ++ separator compact ++ decimal h ++ codes "h"

  unfoldable pub relative_duration : ℕ → Bool → Text
  unfolding duration_of
  relative_duration n compact = render_duration compact (duration_of n)

  -- `relative_time`: a time that is not before the reference is now.
  unfoldable pub relative_time : Option ℕ → ℕ → Text
  unfolding relative_duration
  relative_time none reference = codes "never"
  relative_time (some t) reference =
      if leb reference t then codes "now" else relative_duration (reference - t) true

-- The seconds that a duration stands for, and the size of its smallest part.
abbrev pub seconds_of : Duration → ℕ
seconds_of now = 0
seconds_of (seconds n) = n
seconds_of (minutes n) = n * 60
seconds_of (hours n m) = n * 3600 + m * 60
seconds_of (days n h) = n * 86400 + h * 3600

abbrev pub grain_of : Duration → ℕ
grain_of now = 1
grain_of (seconds n) = 1
grain_of (minutes n) = 60
grain_of (hours n m) = 60
grain_of (days n h) = 3600

-- the parts below the first are within their unit
abbrev pub IsProper : Duration → Type 0
IsProper now = Unit {0}
IsProper (seconds n) = n < 60
IsProper (minutes n) = n < 60
IsProper (hours n m) = (n < 24) × (m < 60)
IsProper (days n h) = h < 24

-- A duration is shown as its seconds, cut to its smallest part: less than that part is left out, and
-- no part exceeds its unit.
pub duration_of_lem :
    (n : ℕ)
    → (seconds_of (duration_of n) ≤ n)
      × (n < seconds_of (duration_of n) + grain_of (duration_of n))
      × IsProper (duration_of n)
unfolding duration_of
duration_of_lem n = elim (Bool-cases (n == 0)) [
  | inl e0 ↦ rw e0 (ground (arith, e0), ground (arith, e0), tt)
  | inr n0 ↦ elim (Bool-cases (ltb n 60)) [
    | inl s ↦ rw (n0, s) (ground arith, ground arith, ground (arith, s))
    | inr n1 ↦ elim (Bool-cases (ltb (n / 60) 60)) [
      | inl m ↦ rw (n0, n1, m) (ground arith, ground arith, ground (arith, m))
      | inr n2 ↦ elim (Bool-cases (ltb (n / 60 / 60) 24)) [
        | inl h ↦ rw (n0, n1, n2, h) (ground arith, ground arith, (ground (arith, h), ground arith))
        | inr n3 ↦ rw (n0, n1, n2, n3) (ground arith, ground arith, ground arith)
      ]
    ]
  ]
]
