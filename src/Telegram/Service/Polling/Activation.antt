-- ===== src/Telegram/Service/Polling/Activation.antt =====
-- The activation of the bot, before the first poll.
use meshcore_control_bridge.Common.{
  suc, ◌≡◌, refl, ap, ◌∙◌, Bool, true, false, Option, none, some, codes, if◌then◌else◌,
}
use meshcore_control_bridge.Common.Dict.{get-put}
use meshcore_control_bridge.Python.{Exn, ok}
use meshcore_control_bridge.Dedup.{text_eq}
use meshcore_control_bridge.Storage.Laws.{atomic_ok}
use meshcore_control_bridge.World.Exec.{
  World, Environment, continue, ◌>>=◌, ◌>>◌, pure, store_write,
}
use meshcore_control_bridge.World.Atomic.{store_write-IsAtomic}
use meshcore_control_bridge.Telegram.Store.{TelegramTables, is_activated, mark_activated, set_state}
use meshcore_control_bridge.Telegram.Service.Polling.{answer_webhook, delete_webhook, initialize}

mark_activated-is_activated : (t : TelegramTables) → is_activated (mark_activated t).1 ≡ true
unfolding is_activated mark_activated set_state
mark_activated-is_activated t =
    ap (λ o. elim o as (λ x. Bool) [ none ↦ false | some value ↦ text_eq value (codes "1") ])
      (get-put "activated" "activated" (codes "1") t.state)
    ∙ (unfold text_eq in refl)

module _ (env : Environment) where
  store-activates :
      (w : World) (u : Unit {0})
      → (store_write env (λ now id. mark_activated) w).0 ≡ ok u
      → is_activated (store_write env (λ now id. mark_activated) w).1.telegram ≡ true
  store-activates w u e =
      let stored = store_write env (λ now id. mark_activated) w in
      let done =
        atomic_ok (env.store_answers w.reads) mark_activated w.telegram stored.0 stored.1.telegram u
          (store_write-IsAtomic env (λ now id. mark_activated) w) e in
      rw done at (mark_activated-is_activated w.telegram)

  dropped :
      (fault : Option Exn) (w : World) (u : Unit {0})
      → (continue
          (answer_webhook fault w).0
          (λ _. store_write env (λ now id. mark_activated))
          (answer_webhook fault w).1).0
        ≡ ok u
      → is_activated
          (continue
            (answer_webhook fault w).0
            (λ _. store_write env (λ now id. mark_activated))
            (answer_webhook fault w).1).1.telegram
        ≡ true
  dropped none w u e = store-activates w u e
  dropped (some x) w u e = cc

  begun :
      (w : World) (b : Bool)
      → is_activated w.telegram ≡ b
      → ((if b then pure tt else (delete_webhook env >> store_write env (λ now id. mark_activated)))
          w).0
        ≡ ok tt
      → is_activated
          ((if b
              then pure tt
              else (delete_webhook env >> store_write env (λ now id. mark_activated)))
            w).1.telegram
        ≡ true
  unfolding delete_webhook ◌>>=◌ pure
  begun w true h e = h
  begun w false h e = dropped (env.chat_fault w.reads) (record w { reads = suc w.reads }) tt e

  -- When the initialisation returns, and does not raise, the bot is activated.
  pub initialize-is_activated :
      (w : World) → (initialize env w).0 ≡ ok tt → is_activated (initialize env w).1.telegram ≡ true
  unfolding initialize
  initialize-is_activated w e = begun w (is_activated w.telegram) refl e
