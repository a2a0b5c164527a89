-- ===== src/Health/Publisher/Laws.antt =====
-- When the health event is published again.
use meshcore_control_bridge.Common.{
  ℕ, ◌≡◌, refl, ap, ◌∙◌, inl, inr, Bool, Bool-cases, true, false, not, ◌&&◌, Option, none, some,
  List, [], ◌∷◌, ◌++◌, if◌then◌else◌, arith,
}
use meshcore_control_bridge.Python.{Exn, is_exception, ok}
use meshcore_control_bridge.Text.Utf8.{Text}
use meshcore_control_bridge.Dedup.Laws.{text_eq_iff}
use meshcore_control_bridge.Health.Snapshot.{
  BridgeHealthSnapshot, critical_transition_from, same_time,
}
use meshcore_control_bridge.Health.State.{
  BridgeHealthState, snapshot, after_change, record_failure_locked,
}
use meshcore_control_bridge.Health.Ops.{record_failure}
use meshcore_control_bridge.Health.Publisher.{
  EventPayload, event_payload, Publisher, mark_changed, notify, deliver_all, added, change_health,
  event_fingerprint, publish_if_needed, is_published,
}

-- A new time of a failure is a critical change.
critical_failure :
    (s previous : BridgeHealthSnapshot)
    → same_time s.last_failure previous.last_failure ≡ false
    → critical_transition_from s (some previous) ≡ true
unfolding critical_transition_from
critical_failure s previous e = ground (arith, e)

added-append : {A : Type 0} (before : List A) (a : A) → added before (before ++ a ∷ []) ≡ a ∷ []
added-append [] a = refl
added-append (x ∷ before) a = added-append before a

delivered :
    (flags : List Bool) (q : Publisher)
    → flags ≡ true ∷ []
    → (q.enabled ≡ true) × (q.running ≡ true) × (q.stopped ≡ false)
    → ((deliver_all flags q).changed ≡ true)
      × ((deliver_all flags q).critical ≡ true)
      × ((deliver_all flags q).fired ≡ q.fired)
unfolding deliver_all notify mark_changed
delivered flags q e r = rw (e, r.0, r.1, r.2) (refl, refl, refl)

module _ (encode : EventPayload → Text) where
  -- An event that Home Assistant accepts, forced or not, is not published again without force, at
  -- any later time, while the health is the same: the uptime alone makes no difference.
  pub publish_if_needed_once :
      (now later : ℕ) (answer fault : Option Exn) (force : Bool) (p : Publisher)
      → (publish_if_needed encode now answer force p).0 ≡ ok true
      → publish_if_needed encode later fault false (publish_if_needed encode now answer force p).1
        ≡ (ok false, (publish_if_needed encode now answer force p).1)
  unfolding publish_if_needed event_fingerprint event_payload snapshot
      meshcore_control_bridge.Health.Snapshot.status
      meshcore_control_bridge.Health.Snapshot.telegram_state
  publish_if_needed_once now later answer fault force p accepted =
      let fingerprint = event_fingerprint encode p.channel_index (snapshot now p.health) in
      let skips = not force && is_published encode fingerprint p.published_fingerprint in
      elim (Bool-cases skips) [
        | inl skipped ↦ absurd (refused skipped accepted)
        | inr goes ↦ answered answer goes accepted
      ]
    where
      fingerprint : Text
      fingerprint = event_fingerprint encode p.channel_index (snapshot now p.health)

      skips : Bool
      skips = not force && is_published encode fingerprint p.published_fingerprint

      refused : skips ≡ true → (publish_if_needed encode now answer force p).0 ≡ ok true → ⊥
      refused s h = cc (rw s at h)

      answered :
          (answer : Option Exn)
          → skips ≡ false
          → (publish_if_needed encode now answer force p).0 ≡ ok true
          → publish_if_needed encode later fault false
              (publish_if_needed encode now answer force p).1
            ≡ (ok false, (publish_if_needed encode now answer force p).1)
      answered none s h = rw (s, (text_eq_iff fingerprint fingerprint).1 refl) refl
      answered (some e) s h = elim (Bool-cases (is_exception e)) [
        | inl caught ↦ absurd (cc (rw (s, caught) at h))
        | inr passed ↦ absurd (cc (rw (s, passed) at h))
      ]

  failed_notified :
      (now : ℕ) (h : BridgeHealthState)
      → h.has_callback ≡ true
      → same_time (some now) h.last_failure ≡ false
      → (record_failure now "transport_error" h).notified ≡ h.notified ++ true ∷ []
  unfolding record_failure after_change record_failure_locked snapshot
  failed_notified now h given apart =
      ap
        (λ b.
          if b
          then h.notified
            ++ critical_transition_from
                (snapshot now (record_failure_locked now "transport_error" h))
                (some (snapshot now h))
              ∷ []
          else h.notified)
        given
      ∙ ap (λ c. h.notified ++ c ∷ [])
          (critical_failure (snapshot now (record_failure_locked now "transport_error" h))
            (snapshot now h) apart)

  -- When Home Assistant refuses a forced event with an exception, at another time than that of the
  -- last failure, the publisher is woken again at once, for a critical change, and nothing is fired.
  pub publish_if_needed-failed :
      (now : ℕ) (e : Exn) (p : Publisher)
      → is_exception e ≡ true
      → p.health.has_callback ≡ true
      → (p.enabled ≡ true) × (p.running ≡ true) × (p.stopped ≡ false)
      → same_time (some now) p.health.last_failure ≡ false
      → ((publish_if_needed encode now (some e) true p).0 ≡ ok false)
        × ((publish_if_needed encode now (some e) true p).1.changed ≡ true)
        × ((publish_if_needed encode now (some e) true p).1.critical ≡ true)
        × ((publish_if_needed encode now (some e) true p).1.fired ≡ p.fired)
  unfolding publish_if_needed change_health deliver_all notify mark_changed
  publish_if_needed-failed now e p is given running apart =
      let h' = record_failure now "transport_error" p.health in
      let notified =
        ap (λ after. added p.health.notified after) (failed_notified now p.health given apart)
        ∙ added-append p.health.notified true in
      let (changed, critical, fired) =
        delivered (added p.health.notified h'.notified) (record p { health = h' }) notified
          running in
      rw is (refl, changed, critical, fired)
