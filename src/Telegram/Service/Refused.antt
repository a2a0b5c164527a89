-- ===== src/Telegram/Service/Refused.antt =====
-- Updates that are not admitted have no effect but their records.
use meshcore_control_bridge.Common.{◌≡◌, refl, inl, inr, List}
use meshcore_control_bridge.Text.Utf8.{Text}
use meshcore_control_bridge.World.Exec.{World, Environment}
use meshcore_control_bridge.World.Grows.{AtMostOne, sent_of, handled_of}
use meshcore_control_bridge.Telegram.Update.{Fields}
use meshcore_control_bridge.Telegram.Forwarder.{degrade_audit, degrade_telegram}
use meshcore_control_bridge.Telegram.Service.{Externals, TelegramService}
use meshcore_control_bridge.Telegram.Service.Updates.{process_update}
use meshcore_control_bridge.Telegram.Service.Outside.{IsOutside}
use meshcore_control_bridge.Telegram.Service.Traffic.{sent-IsOutside, handled-IsOutside}
use meshcore_control_bridge.Telegram.Service.Admitted.{IsAdmitted, process_update-Adds}

posted_of : World → List Text
posted_of w = w.posted

posted-IsOutside : IsOutside posted_of
unfolding posted_of degrade_audit degrade_telegram
posted-IsOutside = record {
  reads = λ n w. refl;
  events = λ es w. refl;
  tables = λ t w. refl;
  audit = λ env e w. refl;
  telegram = λ env e w. refl;
}

none_added :
    {X : Type 0} {P : X → Type 0} {before after : List X}
    → ((x : X) → P x → ⊥)
    → AtMostOne P before after
    → after ≡ before
none_added h (inl same) = same
none_added h (inr (x, grown, p)) = absurd (h x p)

module _ {H : Type 0} (env : Environment) (python : Externals) (service : TelegramService H)
    (fields : Fields)
    (refused : (body : Text) → IsAdmitted env python service fields body → ⊥) where
  untouched :
      {X : Type 0} (part : World → List X)
      → IsOutside part
      → (w : World) → part (process_update env python service fields w).1 ≡ part w
  untouched part outside w =
      none_added (λ x a. refused a.0 a.1)
        ((process_update-Adds env python service part part outside outside fields (λ body v x. ⊥)
            (λ body v x. ⊥) (λ update body a. absurd (refused body a))
            (λ update body a. absurd (refused body a))).at
          w)

  -- An update that is an edit, or that brings no text of the allowed user in the allowed private
  -- chat, runs no command, sends nothing to MeshCore and posts nothing to the chat.
  pub process_update-refused :
      (w : World)
      → ((process_update env python service fields w).1.handled ≡ w.handled)
        × ((process_update env python service fields w).1.sent ≡ w.sent)
        × ((process_update env python service fields w).1.posted ≡ w.posted)
  unfolding posted_of
  process_update-refused w = (
    untouched handled_of handled-IsOutside w,
    untouched sent_of sent-IsOutside w,
    untouched posted_of posted-IsOutside w,
  )
