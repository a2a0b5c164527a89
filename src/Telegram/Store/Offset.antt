-- ===== src/Telegram/Store/Offset.antt =====
-- telegram/store.py: `last_update_id` and `persist_last_update_id`.
use meshcore_control_bridge.Common.{ℕ, ◌≡◌, refl, ap, Bool, false, Option, none, some, codes}
use meshcore_control_bridge.Common.Dict.{get, get-put}
use meshcore_control_bridge.Python.{Result, ok, raise}
use meshcore_control_bridge.Text.Utf8.{Text}
use meshcore_control_bridge.Dedup.{text_eq}
use meshcore_control_bridge.Telegram.Store.{TelegramTables, set_state, is_activated}

-- `int(value) if value is not None else None`, where `int` is Python's
abbrev pub number_of : (Text → Result ℕ) → Option Text → Result (Option ℕ)
number_of int none = ok none
number_of int (some value) = elim (int value) [ ok n ↦ ok (some n) | raise e ↦ raise e ]

unfoldable pub last_update_id : (Text → Result ℕ) → TelegramTables → Result (Option ℕ)
last_update_id int t = number_of int (get "last_update_id" t.state)

unfoldable pub persist_last_update_id :
    (ℕ → Text) → ℕ → TelegramTables → Result (Unit {0}) × TelegramTables
unfolding set_state
persist_last_update_id decimal update_id t = set_state "last_update_id" (decimal update_id) t

module _ (decimal : ℕ → Text) (int : Text → Result ℕ) where
  -- The identifier that is persisted last is the one that is read, where `int` reads a numeral back;
  -- whether the bot is activated stays as it is.
  pub last_update_id-persist :
      (update_id : ℕ) (t : TelegramTables)
      → int (decimal update_id) ≡ ok update_id
      → (last_update_id int (persist_last_update_id decimal update_id t).1 ≡ ok (some update_id))
        × (is_activated (persist_last_update_id decimal update_id t).1 ≡ is_activated t)
  unfolding last_update_id persist_last_update_id is_activated set_state
  last_update_id-persist update_id t h = (
    rw (get-put "last_update_id" "last_update_id" (decimal update_id) t.state, h) refl,
    ap (λ o. elim o as (λ x. Bool) [ none ↦ false | some value ↦ text_eq value (codes "1") ])
        (get-put "last_update_id" "activated" (decimal update_id) t.state),
  )
