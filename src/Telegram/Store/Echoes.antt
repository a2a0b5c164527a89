-- ===== src/Telegram/Store/Echoes.antt =====
-- The bridge's own messages that come back: how many of them are still expected.
use meshcore_control_bridge.Common.{
  ℕ, suc, ◌+◌, ◌≤◌, ◌≡◌, ◌↔◌, ◌⊎◌, inl, inr, refl, sym, ap, ◌∙◌, arith, true, false, Bool-cases,
  Option-cases, none, some, List, [], ◌∷◌, ◌++◌, leb, ltb, ==_iff, if◌then◌else◌,
}
use meshcore_control_bridge.Python.{Result, ok, raise}
use meshcore_control_bridge.Telegram.Store.{
  TelegramBridgeRecord, TelegramTables, Echo, matches, earliest, observe, observed, has_id,
  purge_pending, is_listed, bridge_statuses, consume_pending_echo, create_bridge_record,
}

-- The number of echoes that are expected.
unfoldable pub expected : Echo → ℕ → List TelegramBridgeRecord → ℕ
expected echo now [] = 0
expected echo now (r ∷ rows) =
    let rest = expected echo now rows in if matches echo now r then suc rest else rest

-- The primary key of the table.
unfoldable pub IsUnique : List TelegramBridgeRecord → Type 0
IsUnique [] = Unit
IsUnique (r ∷ rows) = (has_id r.bridge_message_id rows ≡ false) × IsUnique rows

abbrev IsIn : TelegramBridgeRecord → List TelegramBridgeRecord → Type 0
IsIn r [] = ⊥
IsIn r (s ∷ rows) = (s ≡ r) ⊎ IsIn r rows

has_id-IsIn :
    (r : TelegramBridgeRecord) (rows : List TelegramBridgeRecord)
    → IsIn r rows
    → has_id r.bridge_message_id rows ≡ true
unfolding has_id
has_id-IsIn r [] h = absurd h
has_id-IsIn r (s ∷ rows) (inl e) = ground (arith, ap (λ t. t.bridge_message_id) e)
has_id-IsIn r (s ∷ rows) (inr h) = ground (arith, has_id-IsIn r rows h)

module _ (echo : Echo) (now : ℕ) where
  earliest-IsIn :
      (r : TelegramBridgeRecord) (rows : List TelegramBridgeRecord)
      → earliest echo now rows ≡ some r
      → IsIn r rows × (matches echo now r ≡ true)
  unfolding earliest
  earliest-IsIn r [] h = absurd (ground arith)
  earliest-IsIn r (s ∷ rows) h = elim (Bool-cases (matches echo now s)) [
    | inr unmatched ↦ let (i, m) = earliest-IsIn r rows (ground arith) in (inr i, m)
    | inl matching ↦ elim (Option-cases (earliest echo now rows)) [
      | inl e ↦ (inl (ground arith), ground arith)
      | inr (q, e) ↦ elim (Bool-cases (ltb q.created_at s.created_at)) [
        | inl lt ↦ let (i, m) = earliest-IsIn r rows (ground arith) in (inr i, m)
        | inr ge ↦ (inl (ground arith), ground arith)
      ]
    ]
  ]

  earliest-none :
      (rows : List TelegramBridgeRecord)
      → (earliest echo now rows ≡ none) ↔ (expected echo now rows ≡ 0)
  unfolding earliest expected
  earliest-none [] = (λ h. refl, λ h. refl)
  earliest-none (r ∷ rows) = elim (Bool-cases (matches echo now r)) [
    | inr unmatched ↦ ground (arith, earliest-none rows)
    | inl matching ↦ elim (Option-cases (earliest echo now rows)) [
      | inl e ↦ ground arith
      | inr (q, e) ↦ elim (Bool-cases (ltb q.created_at r.created_at)) [
        | inl lt ↦ ground arith
        | inr ge ↦ ground arith
      ]
    ]
  ]

  observe_same :
      (id : ℕ) (rows : List TelegramBridgeRecord) → has_id id rows ≡ false → observe id rows ≡ rows
  unfolding has_id observe
  observe_same id [] h = refl
  observe_same id (r ∷ rows) h = ground (arith, observe_same id rows)

  observed_unmatched : (r : TelegramBridgeRecord) → matches echo now (observed r) ≡ false
  unfolding matches
  observed_unmatched r = ground arith

  expected-observe :
      (r : TelegramBridgeRecord) (rows : List TelegramBridgeRecord)
      → IsUnique rows
      → IsIn r rows
      → matches echo now r ≡ true
      → suc (expected echo now (observe r.bridge_message_id rows)) ≡ expected echo now rows
  unfolding IsUnique expected observe
  expected-observe r [] u h m = absurd h
  expected-observe r (s ∷ rows) u (inl e) m =
      let id : has_id r.bridge_message_id rows ≡ false = rw⁻¹ e u.0 in
      let at : s.bridge_message_id ≡ r.bridge_message_id = ap (λ t. t.bridge_message_id) e in
      let counts : matches echo now s ≡ true = rw e m in
      ground (arith, observe_same r.bridge_message_id rows id, observed_unmatched s)
  expected-observe r (s ∷ rows) u (inr h) m = ground (
    arith,
    expected-observe r rows u.1 h m,
    has_id-IsIn r rows h,
    ==_iff s.bridge_message_id r.bridge_message_id,
  )

  expected-purge :
      (rows : List TelegramBridgeRecord)
      → expected echo now (purge_pending now rows) ≡ expected echo now rows
  unfolding expected purge_pending matches
  expected-purge [] = refl
  expected-purge (r ∷ rows) = ground (arith, expected-purge rows)

  IsUnique-purge_pending :
      (rows : List TelegramBridgeRecord) → IsUnique rows → IsUnique (purge_pending now rows)
  unfolding IsUnique purge_pending has_id
  IsUnique-purge_pending [] u = tt
  IsUnique-purge_pending (r ∷ rows) u = elim (Bool-cases (leb r.expires_at now)) [
    | inl gone ↦ rw gone (IsUnique-purge_pending rows u.1)
    | inr stays ↦ rw stays (purged r.bridge_message_id rows u.0, IsUnique-purge_pending rows u.1)
  ]
    where
      purged :
          (id : ℕ) (rows : List TelegramBridgeRecord)
          → has_id id rows ≡ false
          → has_id id (purge_pending now rows) ≡ false
      purged id [] h = refl
      purged id (r ∷ rows) h = ground (arith, purged id rows)

  -- On a table with unique identifiers, either no echo is expected and none is found, or the
  -- record that is found matched the text, is marked as observed, and one echo less is expected.
  pub consume_pending_echo_lem :
      (t : TelegramTables)
      → IsUnique t.pending
      → ((expected echo now t.pending ≡ 0)
          × ((consume_pending_echo echo now t).0 ≡ ok none)
          × (expected echo now (consume_pending_echo echo now t).1.pending ≡ 0))
        ⊎ ((r : TelegramBridgeRecord) × ((consume_pending_echo echo now t).0
              ≡ ok (some (observed r)))
            × (matches echo now r ≡ true)
            × (suc (expected echo now (consume_pending_echo echo now t).1.pending)
                ≡ expected echo now t.pending))
  unfolding consume_pending_echo
  consume_pending_echo_lem t u =
      let live = purge_pending now t.pending in
      let same = expected-purge t.pending in
      elim (Option-cases (earliest echo now live)) [
        | inl e ↦
            let zero_left = (earliest-none live).0 e in
            inl (sym same ∙ zero_left, rw e refl, rw e zero_left)
        | inr (r, e) ↦
            let (inside, m) = earliest-IsIn r live e in
            inr (
              r,
              rw e refl,
              m,
              rw e (expected-observe r live (IsUnique-purge_pending t.pending u) inside m ∙ same),
            )
      ]

  -- a search that finds nothing was for an echo that is not expected
  pub missed :
      (t : TelegramTables)
      → (consume_pending_echo echo now t).0 ≡ ok none
      → expected echo now t.pending ≡ 0
  unfolding consume_pending_echo
  missed t h = elim (Option-cases (earliest echo now (purge_pending now t.pending))) [
    | inl e ↦ sym (expected-purge t.pending) ∙ (earliest-none (purge_pending now t.pending)).0 e
    | inr (r, e) ↦ absurd (ground (arith, e))
  ]

  expected-append :
      (rows : List TelegramBridgeRecord) (r : TelegramBridgeRecord)
      → expected echo now (rows ++ r ∷ [])
        ≡ expected echo now rows + (if matches echo now r then 1 else 0)
  unfolding expected
  expected-append [] r = ground arith
  expected-append (s ∷ rows) r = ground (arith, expected-append rows r)

  -- the rows that are purged at an earlier time match no echo now
  expected-purge_earlier :
      (then_ : ℕ) (rows : List TelegramBridgeRecord)
      → then_ ≤ now
      → expected echo now (purge_pending then_ rows) ≡ expected echo now rows
  unfolding expected purge_pending matches
  expected-purge_earlier then_ [] h = refl
  expected-purge_earlier then_ (r ∷ rows) h = ground (arith, expected-purge_earlier then_ rows)

  -- What creating a record adds to the echoes that are expected: the record, if it was stored, with
  -- its expiry.
  abbrev pub added : ℕ → TelegramBridgeRecord → Result TelegramBridgeRecord → ℕ
  added ttl fresh (raise e) = 0
  added ttl fresh (ok stored) =
      if matches echo now (record fresh { expires_at = fresh.created_at + ttl }) then 1 else 0

  -- For every echo, at any time that is not before the creation: creating a record leaves all the
  -- expected echoes expected and, if the record is stored, adds one where the record matches until
  -- it expires; if it is refused, none is added.
  pub create_bridge_record-expected :
      (ttl : ℕ) (fresh : TelegramBridgeRecord) (t : TelegramTables)
      → fresh.created_at ≤ now
      → expected echo now (create_bridge_record ttl fresh t).1.pending
        ≡ expected echo now t.pending + added ttl fresh (create_bridge_record ttl fresh t).0
  unfolding create_bridge_record
  create_bridge_record-expected ttl fresh t h =
      let same = expected-purge_earlier fresh.created_at t.pending h in
      elim (Bool-cases (is_listed fresh.status bridge_statuses)) [
        | inr unlisted ↦ rw unlisted (omega arith)
        | inl listed ↦
            elim (Bool-cases
              (has_id fresh.bridge_message_id (purge_pending fresh.created_at t.pending))) [
                | inl taken ↦ rw (listed, taken) (omega arith)
                | inr free ↦
                    rw (listed, free)
                      (expected-append (purge_pending fresh.created_at t.pending)
                          (record fresh { expires_at = fresh.created_at + ttl })
                        ∙ ap (λ n. n + added ttl fresh (ok fresh)) same)
              ]
      ]

-- What `consume_pending_echo` looks for when the text of a record comes back.
abbrev pub echo_of : TelegramBridgeRecord → Echo
echo_of r = record {
  transport = r.destination_transport;
  room_id = r.destination_room_id;
  content_ref = r.content_ref_hash;
  size = r.size_bytes;
}
