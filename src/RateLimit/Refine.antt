-- ===== src/RateLimit/Refine.antt =====
-- The limiter, which forgets what is too old, decides as one that remembers every accepted call.
use meshcore_control_bridge.Common.{
  ℕ, ◌≤◌, ◌≡◌, refl, ap₂, ◌∙◌, inl, inr, String, Bool, not, ◌&&◌, List, [], ◌∷◌, ◌++◌, arith, ltb,
  leb, if◌then◌else◌, length, All, Bool-cases, str_eq, eq_iff,
}
use meshcore_control_bridge.Common.Dict.{get, put, get-put}
use meshcore_control_bridge.RateLimit.{RateLimiter, events_of, expire, allow}
use meshcore_control_bridge.RateLimit.Window.{
  recent, IsSorted, expire-eq-recent, recent-append, recent-recent, All-recent, recent-IsSorted,
  append-IsSorted,
}

-- Every accepted call, oldest first: the sender and the time.
abbrev pub History : Type 0
History = List (String × ℕ)

unfoldable pub times_of : String → History → List ℕ
times_of s [] = []
times_of s ((r, t) ∷ h) = if str_eq r s then t ∷ times_of s h else times_of s h

-- The specification: a call of a named sender is accepted if fewer than `limit` of the sender's
-- accepted calls are at most `window` old.
unfoldable pub permits : ℕ → ℕ → History → String → ℕ → Bool
permits limit window h s now =
    not (str_eq s "") && ltb (length (recent window now (times_of s h))) limit

unfoldable pub note : ℕ → ℕ → History → String → ℕ → History
note limit window h s now = if permits limit window h s now then h ++ (s, now) ∷ [] else h

-- The decisions of the specification, and of the limiter, on a sequence of calls.
unfoldable pub spec_decisions : ℕ → ℕ → History → History → List Bool
spec_decisions limit window h [] = []
spec_decisions limit window h ((s, now) ∷ calls) =
    permits limit window h s now ∷ spec_decisions limit window (note limit window h s now) calls

unfoldable pub decisions : RateLimiter → History → List Bool
decisions l [] = []
decisions l ((s, now) ∷ calls) = let (l', accepted) = allow l s now in accepted ∷ decisions l' calls

-- The calls come at times that never go back.
abbrev pub IsChronological : ℕ → History → Type 0
IsChronological last [] = Unit
IsChronological last ((s, now) ∷ calls) = (last ≤ now) × IsChronological now calls

-- What the limiter keeps of a sender: sorted, not from the future, and all that is still recent.
record Agrees (window last : ℕ) (events times : List ℕ) : Type 0 where
  sorted : IsSorted events
  past : All (λ u. u ≤ last) events
  same : (now : ℕ) → last ≤ now → recent window now events ≡ recent window now times

weaken :
    (last now : ℕ) (times : List ℕ)
    → last ≤ now
    → All (λ u. u ≤ last) times
    → All (λ u. u ≤ now) times
weaken last now [] h k = tt
weaken last now (t ∷ times) h k = (omega arith, weaken last now times h k.1)

Agrees-later :
    {window last : ℕ} {events times : List ℕ} (now : ℕ)
    → last ≤ now
    → Agrees window last events times
    → Agrees window now events times
Agrees-later {last = last} {events = events} now h a = record {
  sorted = a.sorted;
  past = weaken last now events h a.past;
  same = λ n k. a.same n (omega arith);
}

Agrees-expire :
    {window last : ℕ} {events times : List ℕ} (now : ℕ)
    → last ≤ now
    → Agrees window last events times
    → Agrees window now (expire window now events) times
Agrees-expire {window} {last} {events} {times} now h a =
    rw (expire-eq-recent window now events a.sorted) (record {
      sorted = recent-IsSorted window now events a.sorted;
      past = All-recent window now _ events (weaken last now events h a.past);
      same = λ n k. recent-recent window n now events k ∙ a.same n (omega arith);
    })

Agrees-append :
    {window : ℕ} {events times : List ℕ} (now : ℕ)
    → Agrees window now events times
    → Agrees window now (events ++ now ∷ []) (times ++ now ∷ [])
Agrees-append {window} {events} {times} now a = record {
  sorted = (append-IsSorted events now a.sorted a.past).0;
  past = (append-IsSorted events now a.sorted a.past).1;
  same = λ n k. rw (
    recent-append window n events (now ∷ []),
    recent-append window n times (now ∷ []),
    a.same n k,
  );
}

times_of-append :
    (s r : String) (h : History) (t : ℕ)
    → times_of s (h ++ (r, t) ∷ []) ≡ (if str_eq r s then times_of s h ++ t ∷ [] else times_of s h)
unfolding times_of
times_of-append s r [] t = refl
times_of-append s r ((q, u) ∷ h) t = ground (arith, times_of-append s r h t)

record Follows (limit window : ℕ) (l : RateLimiter) (h : History) (last : ℕ) : Type 0 where
  same_limit : l.max_commands ≡ limit
  same_window : l.window_seconds ≡ window
  agrees : (s : String) → Agrees window last (events_of l s) (times_of s h)

events_of-put :
    (l : RateLimiter) (s r : String) (times : List ℕ)
    → events_of (record l { events = put s times l.events }) r
      ≡ (if str_eq s r then times else events_of l r)
unfolding events_of
events_of-put l s r times = ground (arith, get-put s r times l.events)

module _ {limit window : ℕ} {l : RateLimiter} {h : History} {last : ℕ} (s : String) (now : ℕ)
    (le : last ≤ now) (f : Follows limit window l h last) where
  -- the limiter decides as the specification does
  allow-eq-permits : (allow l s now).1 ≡ permits limit window h s now
  unfolding allow permits
  allow-eq-permits = ground (
    arith,
    f.same_limit,
    f.same_window,
    expire-eq-recent window now (events_of l s) (f.agrees s).sorted,
    (f.agrees s).same now le,
  )

  kept_elsewhere :
      (r : String) (times : List ℕ)
      → Agrees window now times (times_of s h)
      → Agrees window now (events_of (record l { events = put s times l.events }) r) (times_of r h)
  kept_elsewhere r times a = rw (events_of-put l s r times) (elim (Bool-cases (str_eq s r)) [
    | inl same ↦ rw (same, ← (eq_iff s r).0 same) a
    | inr other ↦ rw other (Agrees-later now le (f.agrees r))
  ])

  added_here :
      (r : String) (times : List ℕ)
      → Agrees window now times (times_of s h)
      → Agrees window now
          (events_of (record l { events = put s (times ++ now ∷ []) l.events }) r)
          (times_of r (h ++ (s, now) ∷ []))
  added_here r times a =
      rw (events_of-put l s r (times ++ now ∷ []), times_of-append r s h now)
        (elim (Bool-cases (str_eq s r)) [
          | inl same ↦ rw (same, ← (eq_iff s r).0 same) (Agrees-append now a)
          | inr other ↦ rw other (Agrees-later now le (f.agrees r))
        ])

  allow-Follows : Follows limit window (allow l s now).0 (note limit window h s now) now
  unfolding allow note events_of
  allow-Follows =
      let events = expire l.window_seconds now (events_of l s) in
      let expired : Agrees window now events (times_of s h) =
        rw f.same_window (Agrees-expire now le (f.agrees s)) in
      elim (Bool-cases (str_eq s "")) [
        | inl nameless ↦
            rw (← allow-eq-permits, nameless)
              (record {
                same_limit = f.same_limit;
                same_window = f.same_window;
                agrees = λ r. Agrees-later now le (f.agrees r);
              })
        | inr named ↦ elim (Bool-cases (leb l.max_commands (length events))) [
          | inl full ↦
              rw (← allow-eq-permits, named, full)
                (record {
                  same_limit = f.same_limit;
                  same_window = f.same_window;
                  agrees = λ r. kept_elsewhere r events expired;
                })
          | inr room ↦
              rw (← allow-eq-permits, named, room)
                (record {
                  same_limit = f.same_limit;
                  same_window = f.same_window;
                  agrees = λ r. added_here r events expired;
                })
        ]
      ]

decisions_of_Follows :
    (limit window last : ℕ) (l : RateLimiter) (h calls : History)
    → Follows limit window l h last
    → IsChronological last calls
    → decisions l calls ≡ spec_decisions limit window h calls
unfolding decisions spec_decisions
decisions_of_Follows limit window last l h [] f c = refl
decisions_of_Follows limit window last l h ((s, now) ∷ calls) f c =
    ap₂ ◌∷◌ (allow-eq-permits s now c.0 f) (
      decisions_of_Follows limit window now (allow l s now).0 (note limit window h s now) calls
        (allow-Follows s now c.0 f) c.1)

-- A new limiter, on any calls whose times never go back, decides each call as the specification
-- does, which counts the sender's accepted calls of the window and forgets none.
pub decisions-eq-spec_decisions :
    (limit window : ℕ) (calls : History)
    → IsChronological 0 calls
    → decisions (record { max_commands = limit; window_seconds = window; events = [] }) calls
      ≡ spec_decisions limit window [] calls
decisions-eq-spec_decisions limit window calls c =
    decisions_of_Follows limit window 0 _ [] calls fresh c
  where
    fresh :
        Follows limit window
          (record { max_commands = limit; window_seconds = window; events = [] })
          []
          0
    fresh = record {
      same_limit = refl;
      same_window = refl;
      agrees = λ s.
          unfold events_of times_of get in record { sorted = tt; past = tt; same = λ n k. refl };
    }
