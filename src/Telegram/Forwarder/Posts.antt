-- ===== src/Telegram/Forwarder/Posts.antt =====
-- What the forwarder posts to the chat.
use meshcore_control_bridge.Common.{
  ℕ, suc, ◌≡◌, refl, sym, ap, ap₂, ◌∙◌, String, Bool, true, false, Bool-cases, Option, none, some,
  inl, inr, List, [], if◌then◌else◌,
}
use meshcore_control_bridge.Python.{Exn, Result, ok, raise, is_sqlite_error}
use meshcore_control_bridge.Text.Utf8.{Text, byte_len}
use meshcore_control_bridge.Text.Space.{normalized_bridge_text}
use meshcore_control_bridge.Models.{InboundMessage}
use meshcore_control_bridge.World.Events.{AuditTrail, EventKind, bridge_received}
use meshcore_control_bridge.World.Exec.{
  World, Environment, continue, ◌>>=◌, pure, store_write, post, accept_post, guarded_sqlite,
  recover_sqlite,
}
use meshcore_control_bridge.World.Grows.{
  AtMostOne, AtMostOne-from, AtMostOne-same, Fixes-bind, Grows, Grows-if, Grows-fixed, Grows-after,
  guarded_sqlite-Fixes,
}
use meshcore_control_bridge.World.Views.{AtMostOne-weaken}
use meshcore_control_bridge.World.Atomic.{store_write-IsAtomic}
use meshcore_control_bridge.Storage.Laws.{atomic_ok}
use meshcore_control_bridge.Telegram.Store.{TelegramBridgeRecord, Echo, consume_pending_echo}
use meshcore_control_bridge.Telegram.Store.Echoes.{expected, missed}
use meshcore_control_bridge.Telegram.Forwarder.{
  Forwarding, meshcore_transport_name, meshcore_room_id, correlation_id, degrade_telegram,
  audit_bridge, is_self_sent_meshcore, is_echo, ignore, admit, post_rendered, limit_rendered,
  forward_rendered, effective_forward, rendered_message, forward_checked, forward_normal_text,
}
use meshcore_control_bridge.Telegram.Forwarder.Quiet.{
  posted_of, Quiet, pure-Quiet, audit_bridge-Quiet, store_write-Quiet, ignore-Quiet,
  keep_record-Quiet, after_post-quiet,
}
use meshcore_control_bridge.Telegram.Forwarder.Asked.{
  is_on_of, asked_at, audit_bridge-on, audit_bridge-asked,
}

-- What the store is asked for when the text of the message comes in: an echo of it.
abbrev pub source_echo : Environment → Forwarding → InboundMessage → Echo
source_echo env config message =
    let source = normalized_bridge_text message.body in
    record {
      transport = meshcore_transport_name;
      room_id = elim message.source_room [
        | none ↦ meshcore_room_id env config message.channel_index
        | some room ↦ room.room_id
      ];
      content_ref = config.content_ref source;
      size = byte_len source;
    }

-- What the forwarder has checked when it posts a text: the message has no mark of the bridge or its
-- node, the store expects no echo of its text at the time `now`, the direction is on, and the text
-- is the rendered message.
pub record IsForwarded (env : Environment) (config : Forwarding) (message : InboundMessage)
    (now : ℕ) (w : World) (posted : Text) : Type 0 where
  pub is_rendered : (rendered_message env config message).text ≡ some posted
  pub is_foreign : is_self_sent_meshcore config.lower message ≡ false
  pub is_unexpected : expected (source_echo env config message) now w.telegram.pending ≡ 0
  pub is_on : effective_forward config.forward w.health ≡ true

module _ (env : Environment) where
  module _ (config : Forwarding) (message : InboundMessage) (trail : Option AuditTrail)
      (received : Option ℕ) where
    accept_post-posted :
        (fault : Option Exn) (body : Text) (w : World)
        → AtMostOne (λ t. t ≡ body) w.posted (accept_post fault body w).1.posted
    accept_post-posted none body w = inr (body, refl, refl)
    accept_post-posted (some e) body w = inl refl

    post_rendered-posted :
        (body : Text) (size_bytes : ℕ) (truncated : Bool)
        → Grows posted_of
            (λ t. t ≡ body)
            (post_rendered env config message trail received body size_bytes truncated)
    unfolding post_rendered post
    post_rendered-posted body size_bytes truncated = record {
      at = λ w.
          AtMostOne-same _
            (after_post-quiet env config message trail received body size_bytes truncated
              (post env body w).0 (post env body w).1)
            (accept_post-posted (env.chat_fault w.reads) body (record w { reads = suc w.reads }));
    }

    limit_rendered-posted :
        (body : Text) (size_bytes : ℕ) (truncated : Bool)
        → Grows posted_of
            (λ t. t ≡ body)
            (limit_rendered env config message trail received body size_bytes truncated)
    unfolding limit_rendered admit
    limit_rendered-posted body size_bytes truncated =
        Grows-after posted_of _ _ _ (record { at = λ w. refl })
          λ allowed.
            Grows-if posted_of _ allowed _ _ (post_rendered-posted body size_bytes truncated) (
              Grows-fixed posted_of _ _ (
                Fixes-bind posted_of _ _
                  (ignore-Quiet env config message trail received "rate_limited" size_bytes
                    truncated)
                  λ done.
                    Fixes-bind posted_of _ _
                      (keep_record-Quiet env config message trail received body size_bytes
                        "dropped")
                      λ stored. pure-Quiet true))

    is_echo-Quiet :
        (body : Text) (size_bytes : ℕ) → Quiet (is_echo env config message body size_bytes)
    unfolding is_echo
    is_echo-Quiet body size_bytes =
        guarded_sqlite-Fixes posted_of _ _ _ (λ e w. unfold degrade_telegram in refl)
          (Fixes-bind posted_of _ _ (store_write-Quiet env _) λ found. pure-Quiet _)

    -- only a search that finds nothing lets the message pass
    passed-none :
        (r : Result (Option TelegramBridgeRecord)) (w : World)
        → (recover_sqlite (degrade_telegram env) true (
            continue r
              (λ found. pure (elim found as (λ o. Bool) [ none ↦ false | some s ↦ true ]))
              w)).0
          ≡ ok false
        → r ≡ ok none
    unfolding pure
    passed-none (ok none) w h = refl
    passed-none (ok (some s)) w h = cc
    passed-none (raise e) w h = elim (Bool-cases (is_sqlite_error e)) [
      | inl sqlite ↦ absurd (cc (rw sqlite at h))
      | inr passed ↦ absurd (cc (rw passed at h))
    ]

    is_echo-unexpected :
        (w : World)
        → (is_echo env config message
            (normalized_bridge_text message.body)
            (byte_len (normalized_bridge_text message.body))
            w).0
          ≡ ok false
        → expected (source_echo env config message) (env.clock w.reads) w.telegram.pending ≡ 0
    unfolding is_echo guarded_sqlite ◌>>=◌
    is_echo-unexpected w h =
        let search =
          store_write env (λ now id. consume_pending_echo (source_echo env config message) now) w in
        missed (source_echo env config message) (env.clock w.reads) w.telegram (
          ap (λ t. t.0)
            (atomic_ok (env.store_answers w.reads)
              (consume_pending_echo (source_echo env config message) (env.clock w.reads)) w.telegram
              search.0 search.1.telegram none
              (store_write-IsAtomic env
                (λ now id. consume_pending_echo (source_echo env config message) now) w)
              (passed-none search.0 search.1 h)))

    -- A rendered text that is posted, with no echo of the message expected.
    abbrev Unexpected : Option Text → World → Text → Type 0
    Unexpected rendered w t =
        (rendered ≡ some t)
        × (expected (source_echo env config message) (env.clock w.reads) w.telegram.pending ≡ 0)

    behind_echo :
        (w : World) (body : Text) (size_bytes : ℕ) (truncated : Bool) (r : Result Bool) (w' : World)
        → w'.posted ≡ w.posted
        → (r ≡ ok false
            → expected (source_echo env config message) (env.clock w.reads) w.telegram.pending ≡ 0)
        → AtMostOne
            (Unexpected (some body) w)
            w.posted
            (continue r
              (λ echo.
                if echo
                then ignore env config message trail received "loop_prevention" size_bytes truncated
                else limit_rendered env config message trail received body size_bytes truncated)
              w').1.posted
    behind_echo w body size_bytes truncated (raise e) w' same passed = inl same
    behind_echo w body size_bytes truncated (ok true) w' same passed = inl (
        (ignore-Quiet env config message trail received "loop_prevention" size_bytes truncated).at
          w'
        ∙ same)
    behind_echo w body size_bytes truncated (ok false) w' same passed =
        AtMostOne-weaken (λ t. t ≡ body) (Unexpected (some body) w)
          (λ t e. (ap some (sym e), passed refl))
          (AtMostOne-from (λ t. t ≡ body) same
            ((limit_rendered-posted body size_bytes truncated).at w'))

    forward_rendered-posted :
        (rendered : Option Text) (truncated : Bool) (w : World)
        → AtMostOne
            (Unexpected rendered w)
            w.posted
            (forward_rendered env config message trail received rendered truncated w).1.posted
    unfolding forward_rendered
    forward_rendered-posted none truncated w = inl (
        (Fixes-bind posted_of _ _
            (ignore-Quiet env config message trail received "dropped" 0 truncated)
            λ done.
              Fixes-bind posted_of _ _
                (keep_record-Quiet env config message trail received [] 0 "dropped")
                λ stored. pure-Quiet true).at
          w)
    forward_rendered-posted (some body) truncated w =
        unfold ◌>>=◌ in
        behind_echo w body (byte_len body) truncated _ _ ((is_echo-Quiet _ _).at w)
          (is_echo-unexpected w)

    forward_checked-posted :
        (w : World)
        → AtMostOne
            (IsForwarded env config message (env.clock w.reads) w)
            w.posted
            (forward_checked env config message trail received w).1.posted
    unfolding forward_checked
    forward_checked-posted w = elim (Bool-cases (effective_forward config.forward w.health)) [
      | inr off ↦
          rw off
            (inl ((ignore-Quiet env config message trail received "forward_disabled" _ _).at w))
      | inl on ↦ elim (Bool-cases (is_self_sent_meshcore config.lower message)) [
        | inl own ↦
            rw (on, own)
              (inl ((ignore-Quiet env config message trail received "loop_prevention" _ _).at w))
        | inr foreign ↦ rw (on, foreign) (checked on foreign (forward_rendered-posted _ _ w))
      ]
    ]
      where
        checked :
            {after : List Text}
            → effective_forward config.forward w.health ≡ true
            → is_self_sent_meshcore config.lower message ≡ false
            → AtMostOne (Unexpected (rendered_message env config message).text w) w.posted after
            → AtMostOne (IsForwarded env config message (env.clock w.reads) w) w.posted after
        checked on foreign (inl same) = inl same
        checked on foreign (inr (t, grown, e)) = inr (
          t,
          grown,
          record { is_rendered = e.0; is_foreign = foreign; is_unexpected = e.1; is_on = on },
        )

module _ (env : Environment) (config : Forwarding) where
  -- Forwarding a text posts at most one text to the chat: the rendered message, and only if the
  -- direction to Telegram is on, the message is not marked as sent by the bridge or its own node,
  -- and the store expects no echo of its text when it is asked.
  pub forward_normal_text-posted :
      (message : InboundMessage) (trail : Option AuditTrail) (w : World)
      → AtMostOne
          (IsForwarded env config message (env.clock (asked_at config w)) w)
          w.posted
          (forward_normal_text env config message trail w).1.posted
  unfolding forward_normal_text ◌>>=◌
  forward_normal_text-posted message trail w =
      behind (audit_bridge env config.audit kind causation correlation w).0
        (audit_bridge env config.audit kind causation correlation w).1
        ((audit_bridge-Quiet env config.audit kind causation correlation).at w)
        ((audit_bridge-on env config config.audit kind causation correlation).at w)
        (audit_bridge-asked env config kind causation correlation w config.audit)
    where
      kind : EventKind
      kind = bridge_received "meshcore_to_telegram" (byte_len (normalized_bridge_text message.body))

      causation : Option ℕ
      causation = elim trail [ none ↦ none | some t ↦ t.latest_event_id ]

      correlation : String
      correlation = correlation_id message trail

      moved :
          {after : List Text} (w' : World)
          → w'.posted ≡ w.posted
          → is_on_of config w' ≡ is_on_of config w
          → (w'.telegram ≡ w.telegram) × (w'.reads ≡ asked_at config w)
          → AtMostOne (IsForwarded env config message (env.clock w'.reads) w') w'.posted after
          → AtMostOne
              (IsForwarded env config message (env.clock (asked_at config w)) w)
              w.posted
              after
      moved w' e on asked (inl same) = inl (same ∙ e)
      moved w' e on asked (inr (t, grown, f)) = inr (
        t,
        rw e at grown,
        record {
          is_rendered = f.is_rendered;
          is_foreign = f.is_foreign;
          is_unexpected =
              ap₂
                (λ n tables. expected (source_echo env config message) (env.clock n) tables.pending)
                (sym asked.1) (sym asked.0)
              ∙ f.is_unexpected;
          is_on = sym on ∙ f.is_on;
        },
      )

      behind :
          (r : Result (Option ℕ)) (w' : World)
          → w'.posted ≡ w.posted
          → is_on_of config w' ≡ is_on_of config w
          → (w'.telegram ≡ w.telegram) × (w'.reads ≡ asked_at config w)
          → AtMostOne
              (IsForwarded env config message (env.clock (asked_at config w)) w)
              w.posted
              (continue r
                (λ received. forward_checked env config message trail received)
                w').1.posted
      behind (ok received) w' e on asked =
          moved w' e on asked (forward_checked-posted env config message trail received w')
      behind (raise x) w' e on asked = inl e
