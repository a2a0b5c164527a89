-- ===== src/RateLimit.antt =====
-- security/rate_limit.py: at most `max_commands` accepted calls of a sender in a sliding window.
-- The clock reading of a call is an argument; times are whole ticks of one clock.
pub mod Window
pub mod Refine
use meshcore_control_bridge.Common.{
  ℕ, ◌-◌, String, Bool, true, false, none, some, List, [], ◌∷◌, ◌++◌, ltb, leb, if◌then◌else◌,
  length, str_eq,
}
use meshcore_control_bridge.Common.Dict.{Dict, get, put}

pub record RateLimiter : Type 0 where
  pub max_commands : ℕ
  pub window_seconds : ℕ
  pub events : Dict (List ℕ)

-- A missing sender has no events (`defaultdict(deque)`).
unfoldable pub events_of : RateLimiter → String → List ℕ
events_of l sender_id = elim (get sender_id l.events) [ none ↦ [] | some times ↦ times ]

-- The `while` that drops the oldest events.
unfoldable pub expire : ℕ → ℕ → List ℕ → List ℕ
expire window now [] = []
expire window now (t ∷ times) =
    let rest = expire window now times in if ltb window (now - t) then rest else t ∷ times

unfoldable pub allow : RateLimiter → String → ℕ → RateLimiter × Bool
allow l sender_id now =
    if str_eq sender_id ""
    then (l, false)
    else (let events = expire l.window_seconds now (events_of l sender_id) in
        if leb l.max_commands (length events)
        then (record l { events = put sender_id events l.events }, false)
        else (record l { events = put sender_id (events ++ now ∷ []) l.events }, true))
