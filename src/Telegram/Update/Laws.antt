-- ===== src/Telegram/Update/Laws.antt =====
-- Which updates get past the classification.
use meshcore_control_bridge.Common.{
  ◌≡◌, ◌≢◌, ◌↔◌, refl, not, str_eq, if◌then◌else◌, arith, inl, inr, eq_iff, String, Bool, true,
  false, Bool-cases, Option, none, some, codes, ap,
}
use meshcore_control_bridge.Common.{ℕ}
use meshcore_control_bridge.Text.Utf8.{Text}
use meshcore_control_bridge.Text.Space.{is_empty, strip}
use meshcore_control_bridge.Dedup.{text_eq}
use meshcore_control_bridge.Dedup.Laws.{text_eq_iff}
use meshcore_control_bridge.Telegram.Update.{
  Json, Fields, null, boolean, number, negative, text, sequence, mapping, lookup, mapping_of,
  Allowed, is_text_of, text_reason, is_bot, type_text, classify_chat, classify,
}

is_text_of_iff : (o : Option Text) (t : Text) → (is_text_of o t ≡ true) ↔ (o ≡ some t)
is_text_of_iff none t = (λ h. cc, λ h. cc)
is_text_of_iff (some s) t =
    (λ h. ap some ((text_eq_iff s t).0 h), λ h. ground (arith, h, text_eq_iff s t))

-- A text that is not blank, by itself.
abbrev pub IsText : Option Json → Type 0
IsText o = (body : Text) × (o ≡ some (text body)) × (is_empty (strip body) ≡ false)

-- Two texts that are told apart by their test.
apart : (s t : String) → str_eq s t ≡ false → s ≢ t
apart s t d e = cc ((eq_iff s t).1 e, d)

abbrev Passes : String × String → Type 0
Passes reason = reason.0 ≡ "foundation_only"

no_text :
    (reason : String) (o : Option Json)
    → reason ≢ "foundation_only"
    → ((s : Text) → o ≢ some (text s))
    → (reason ≡ "foundation_only") ↔ IsText o
no_text reason o n lacking = (λ h. absurd (n h), λ h. absurd (lacking h.0 h.1))

text_reason_iff : (o : Option Json) → Passes (text_reason o) ↔ IsText o
text_reason_iff none = no_text _ _ (apart _ _ refl) (λ s e. cc)
text_reason_iff (some null) = no_text _ _ (apart _ _ refl) (λ s e. cc)
text_reason_iff (some (boolean b)) = no_text _ _ (apart _ _ refl) (λ s e. cc)
text_reason_iff (some (number n)) = no_text _ _ (apart _ _ refl) (λ s e. cc)
text_reason_iff (some (negative n)) = no_text _ _ (apart _ _ refl) (λ s e. cc)
text_reason_iff (some (sequence items)) = no_text _ _ (apart _ _ refl) (λ s e. cc)
text_reason_iff (some (mapping fields)) = no_text _ _ (apart _ _ refl) (λ s e. cc)
text_reason_iff (some (text s)) = elim (Bool-cases (is_empty (strip s))) [
  | inl blank ↦ (
    λ h. absurd (apart "empty_text" "foundation_only" refl (rw blank at h)),
    λ h. cc (blank, h.1, h.2),
  )
  | inr worded ↦ (λ h. (s, refl, worded), λ h. rw worded refl)
]

-- A check that refuses for a reason of its own.
refuses :
    (b : Bool) (reason rest : String × String)
    → reason.0 ≢ "foundation_only"
    → Passes (if b then reason else rest) ↔ ((b ≡ false) × Passes rest)
refuses true reason rest n = (λ h. absurd (n h), λ h. cc (h.0))
refuses false reason rest n = (λ h. (refl, h), λ h. h.1)

negation_lem : (b : Bool) → (not b ≡ false) ↔ (b ≡ true)
negation_lem true = (λ h. refl, λ h. refl)
negation_lem false = (λ h. cc, λ h. cc)

module _ (decimal : ℕ → Text) (printed : Json → Text) where
  -- A private chat and a user that are the allowed ones, no bot, and a text that is not blank.
  pub record IsAllowed (allowed : Allowed) (message : Fields) (chat_id user_id : Option Text)
      : Type 0 where
    pub is_private :
        type_text decimal printed (lookup "type" (mapping_of (lookup "chat" message)))
        ≡ codes "private"
    pub chat : chat_id ≡ some allowed.private_chat_id
    pub no_bot : is_bot decimal printed (mapping_of (lookup "from" message)) ≡ false
    pub user : user_id ≡ some allowed.user_id
    pub body : IsText (lookup "text" message)

  -- An update is let through as a text exactly when its message is a text that is not blank, in the
  -- private chat that is allowed, from the user that is allowed, who is no bot.
  pub classify_iff :
      (allowed : Allowed) (message : Fields) (chat_id user_id : Option Text)
      → ((classify decimal printed allowed (some message) chat_id user_id).0 ≡ "foundation_only")
        ↔ IsAllowed allowed message chat_id user_id
  unfolding classify classify_chat text_eq
  classify_iff allowed message chat_id user_id = (
    λ h.
        let (g1, h1) = (refuses _ _ _ (apart "group_ignored" _ refl)).0 h in
        let (g2, h2) = (refuses _ _ _ (apart "supergroup_ignored" _ refl)).0 h1 in
        let (g3, h3) = (refuses _ _ _ (apart "channel_ignored" _ refl)).0 h2 in
        let (g4, h4) = (refuses _ _ _ (apart "chat_not_authorized" _ refl)).0 h3 in
        let (g5, h5) = (refuses _ _ _ (apart "chat_not_authorized" _ refl)).0 h4 in
        let (g6, h6) = (refuses _ _ _ (apart "bot_message" _ refl)).0 h5 in
        let (g7, h7) = (refuses _ _ _ (apart "user_not_authorized" _ refl)).0 h6 in
        record {
          is_private = (text_eq_iff _ _).0 ((negation_lem _).0 g4);
          chat = (is_text_of_iff _ _).0 ((negation_lem _).0 g5);
          no_bot = g6;
          user = (is_text_of_iff _ _).0 ((negation_lem _).0 g7);
          body = (text_reason_iff _).0 h7;
        },
    λ a.
        let kind = type_text decimal printed (lookup "type" (mapping_of (lookup "chat" message))) in
        let other : (t : Text) → text_eq (codes "private") t ≡ false → text_eq kind t ≡ false =
          λ t d. rw a.is_private d in
        (refuses _ _ _ (apart "group_ignored" _ refl)).1 (
          other (codes "group") refl,
          (refuses _ _ _ (apart "supergroup_ignored" _ refl)).1 (
            other (codes "supergroup") refl,
            (refuses _ _ _ (apart "channel_ignored" _ refl)).1 (
              other (codes "channel") refl,
              (refuses _ _ _ (apart "chat_not_authorized" _ refl)).1 (
                (negation_lem _).1 ((text_eq_iff _ _).1 a.is_private),
                (refuses _ _ _ (apart "chat_not_authorized" _ refl)).1 (
                  (negation_lem _).1 ((is_text_of_iff _ _).1 a.chat),
                  (refuses _ _ _ (apart "bot_message" _ refl)).1 (
                    a.no_bot,
                    (refuses _ _ _ (apart "user_not_authorized" _ refl)).1 (
                      (negation_lem _).1 ((is_text_of_iff _ _).1 a.user),
                      (text_reason_iff _).1 a.body,
                    ),
                  ),
                ),
              ),
            ),
          ),
        ),
  )
