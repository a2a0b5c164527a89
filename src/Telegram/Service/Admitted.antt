-- ===== src/Telegram/Service/Admitted.antt =====
-- What `process_update` does to a list that its records leave alone: only a text of the allowed user
-- in the allowed chat can add to it.
use meshcore_control_bridge.Common.{
  ℕ, ◌≡◌, ◌⊎◌, refl, String, true, false, Bool-cases, Option, none, some, inl, inr, List, str_eq,
  eq_iff,
}
use meshcore_control_bridge.Python.{Result, ok, raise}
use meshcore_control_bridge.Text.Utf8.{Text}
use meshcore_control_bridge.Text.Space.{strip}
use meshcore_control_bridge.Commands.Parser.{starts_with}
use meshcore_control_bridge.World.Exec.{World, Environment, Exec}
use meshcore_control_bridge.World.Views.{
  GrowsBy, GrowsBy-fixed, GrowsBy-if, GrowsBy-after, AtMostOne-weaken,
}
use meshcore_control_bridge.Telegram.Update.{
  Json, Fields, null, boolean, number, negative, text, sequence, mapping, lookup, mapping_field,
  natural, classify,
}
use meshcore_control_bridge.Telegram.Update.Laws.{IsAllowed, classify_iff}
use meshcore_control_bridge.Telegram.Service.{
  Externals, TelegramService, TelegramUpdateDecision, Received,
}
use meshcore_control_bridge.Telegram.Service.Outside.{
  IsOutside, settle-Outside, seen_or_store_update-Outside, throw-Outside,
}
use meshcore_control_bridge.Telegram.Service.Commands.{process_command_update}
use meshcore_control_bridge.Telegram.Service.Forwarding.{process_forward_update}
use meshcore_control_bridge.Telegram.Service.Updates.{
  chat_id_of, user_id_of, process_text, settle_reason, process_classified, process_fresh,
  process_once, process_branch, process_numbered, numbered, process_update,
}

module _ {H : Type 0} (env : Environment) (python : Externals) (service : TelegramService H) where
  -- The update is no edit, and brings this text from the allowed user in the allowed chat.
  pub record IsAdmitted (fields : Fields) (body : Text) : Type 0 where
    pub message : Fields
    pub no_edit : mapping_field (lookup "edited_message" fields) ≡ none
    pub is_message : mapping_field (lookup "message" fields) ≡ some message
    pub is_allowed :
        IsAllowed python.decimal python.printed service.allowed message
          (chat_id_of env python service (some message))
          (user_id_of env python service (some message))
    pub is_body : lookup "text" message ≡ some (text body)

  module _ {V X : Type 0} (view : World → V) (part : World → List X) (on_view : IsOutside view)
      (on_part : IsOutside part) (fields : Fields) (Q R : Text → V → X → Type 0)
      (commanded : (update : Received) (body : Text)
        → IsAdmitted fields body
        → GrowsBy view part (Q body) (process_command_update env python service update body))
      (forwarded : (update : Received) (body : Text)
        → IsAdmitted fields body
        → GrowsBy view part (R body) (process_forward_update env python service update body)) where
    -- A command adds the one, any other text the other.
    abbrev pub Adds : Text → V → X → Type 0
    Adds body v x =
        ((starts_with (strip body) service.command_prefix ≡ true) × Q body v x)
        ⊎ ((starts_with (strip body) service.command_prefix ≡ false) × R body v x)

    process_text-Adds :
        (update : Received) (body : Text)
        → IsAdmitted fields body
        → GrowsBy view part (Adds body) (process_text env python service update body)
    unfolding process_text
    process_text-Adds update body a = record {
      at = λ w. elim (Bool-cases (starts_with (strip body) service.command_prefix)) [
        | inl command ↦
            rw command
              (AtMostOne-weaken _ _ (λ x q. inl (refl, q)) ((commanded update body a).at w))
        | inr other ↦
            rw other (AtMostOne-weaken _ _ (λ x r. inr (refl, r)) ((forwarded update body a).at w))
      ];
    }

    abbrev pub AddsAdmitted : V → X → Type 0
    AddsAdmitted v x = (body : Text) × IsAdmitted fields body × Adds body v x

    settled :
        (update : Received) (reason : String × String)
        → GrowsBy view part AddsAdmitted (settle_reason env python service update reason)
    settled update reason = GrowsBy-fixed view part _ _ (settle-Outside on_part env _ _ update _)

    process_classified-Adds :
        (update : Received) (reason : String × String) (found : Option Json)
        → ((body : Text)
            → found ≡ some (text body)
            → reason.0 ≡ "foundation_only"
            → IsAdmitted fields body)
        → GrowsBy view part AddsAdmitted (process_classified env python service update reason found)
    unfolding process_classified
    process_classified-Adds update reason none h = settled update reason
    process_classified-Adds update reason (some null) h = settled update reason
    process_classified-Adds update reason (some (boolean b)) h = settled update reason
    process_classified-Adds update reason (some (number n)) h = settled update reason
    process_classified-Adds update reason (some (negative n)) h = settled update reason
    process_classified-Adds update reason (some (sequence items)) h = settled update reason
    process_classified-Adds update reason (some (mapping fields')) h = settled update reason
    process_classified-Adds update reason (some (text body)) h = record {
      at = λ w. elim (Bool-cases (str_eq reason.0 "foundation_only")) [
        | inr refused ↦ rw refused (inl ((settle-Outside on_part env _ _ update _).at w))
        | inl passes ↦
            let a = h body refl ((eq_iff reason.0 "foundation_only").0 passes) in
            rw passes (
              AtMostOne-weaken (Adds body (view w)) (AddsAdmitted (view w))
                (λ x adds. (body, a, adds)) ((process_text-Adds update body a).at w))
      ];
    }

    process_once-Adds :
        (P : V → X → Type 0) (update : Received) (process : Exec TelegramUpdateDecision)
        → GrowsBy view part P process
        → GrowsBy view part P (process_once env python service update process)
    unfolding process_once
    process_once-Adds P update process p =
        GrowsBy-after view part P _ _
          (seen_or_store_update-Outside on_view env python service update.update_id)
          (seen_or_store_update-Outside on_part env python service update.update_id)
          λ duplicate.
            GrowsBy-if view part P duplicate _ _
              (GrowsBy-fixed view part P _ (settle-Outside on_part env _ _ update none)) p

    process_fresh-Adds :
        (update : Received) (found : Option Fields)
        → mapping_field (lookup "edited_message" fields) ≡ none
        → mapping_field (lookup "message" fields) ≡ found
        → GrowsBy view part AddsAdmitted (process_fresh env python service update found)
    unfolding process_fresh lookup
    process_fresh-Adds update none edit e =
        GrowsBy-fixed view part _ _ (settle-Outside on_part env _ _ update _)
    process_fresh-Adds update (some message) edit e =
        process_classified-Adds update
          (classify python.decimal python.printed service.allowed (some message)
            (chat_id_of env python service (some message))
            (user_id_of env python service (some message)))
          (lookup "text" message)
          λ body is_body passes. record {
            message = message;
            no_edit = edit;
            is_message = e;
            is_allowed =
                (classify_iff python.decimal python.printed service.allowed message _ _).0 passes;
            is_body = is_body;
          }

    process_branch-Adds :
        (update_id : ℕ) (edited found : Option Fields)
        → mapping_field (lookup "edited_message" fields) ≡ edited
        → mapping_field (lookup "message" fields) ≡ found
        → GrowsBy view part AddsAdmitted (process_branch env python service update_id edited found)
    unfolding process_branch
    process_branch-Adds update_id (some edited) found e e' =
        process_once-Adds AddsAdmitted _ _
          (GrowsBy-fixed view part _ _ (settle-Outside on_part env _ _ _ _))
    process_branch-Adds update_id none found e e' =
        process_once-Adds AddsAdmitted _ _ (process_fresh-Adds _ found e e')

    pub process_update-Adds :
        GrowsBy view part AddsAdmitted (process_update env python service fields)
    unfolding process_update process_numbered
    process_update-Adds = named (natural (lookup "update_id" fields))
      where
        named :
            (r : Result ℕ) → GrowsBy view part AddsAdmitted (numbered env python service fields r)
        named (ok update_id) = process_branch-Adds update_id _ _ refl refl
        named (raise e) = GrowsBy-fixed view part _ _ (throw-Outside on_part env e)
