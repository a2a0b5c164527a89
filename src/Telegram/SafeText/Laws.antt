-- ===== src/Telegram/SafeText/Laws.antt =====
-- What can stand in the kept text of a command, and how long an answer is.
use mathlib.Core.List.{append-nil}
use meshcore_control_bridge.Common.{
  ℕ, zero, suc, ◌≤◌, ◌<◌, ◌≡◌, ◌⊎◌, inl, inr, refl, sym, ap, arith, Bool, true, ◌||◌, ◌∙◌,
  Bool-cases, List, [], ◌∷◌, ◌++◌, codes, length, length-append, take, leb, leb→le,
}
use meshcore_control_bridge.Text.Utf8.{Text}
use meshcore_control_bridge.Text.Space.{rstrip, strip, split, normalized_lines}
use meshcore_control_bridge.Dedup.{text_eq}
use meshcore_control_bridge.Dedup.Laws.{text_eq_iff}
use meshcore_control_bridge.Telegram.SafeText.{
  response_max_chars, cut_suffix, trim_telegram_response, first_word, remove_prefix, is_listed,
  bridge_targets, bridge_values, safe_bridge_words, safe_bridge_command_text, asks_ha,
  safe_command_text,
}

length-take-le : (n : ℕ) (s : Text) → length (take n s) ≤ n
length-take-le zero s = omega arith
length-take-le (suc n) [] = omega arith
length-take-le (suc n) (c ∷ s) = omega (arith, length-take-le n s)

length-rstrip-le : (s : Text) → length (rstrip s) ≤ length s
unfolding rstrip
length-rstrip-le [] = omega arith
length-rstrip-le (c ∷ s) = ground (arith, length-rstrip-le s)

-- An answer has at most 3900 characters. It is the whole text, with its lines stripped at their
-- ends, or the text is longer than that and the answer is cut and ends with the note that says so.
pub trim_telegram_response_lem :
    (body : Text)
    → (length (trim_telegram_response body) ≤ response_max_chars)
      × ((trim_telegram_response body ≡ normalized_lines body)
          ⊎ ((response_max_chars < length (normalized_lines body))
              × (kept : Text) × (trim_telegram_response body ≡ kept ++ cut_suffix)))
unfolding trim_telegram_response
trim_telegram_response_lem body =
    let normalized = normalized_lines body in
    elim (Bool-cases (leb (length normalized) response_max_chars)) [
      | inl fits ↦ (rw fits (leb→le _ _ fits), inl (rw fits refl))
      | inr long ↦
          let kept = rstrip (take 3886 normalized) in
          let short = length-rstrip-le (take 3886 normalized) in
          (
            rw long (
                omega
                  (arith, length-append kept cut_suffix, length-take-le 3886 normalized, short)),
            inr (ground (arith, long), kept, rw long refl),
          )
    ]

abbrev pub OneOf : List Text → Text → Type 0
OneOf [] t = ⊥
OneOf (s ∷ ss) t = (t ≡ s) ⊎ OneOf ss t

listed : (s : Text) (ts : List Text) → is_listed s ts ≡ true → OneOf ts s
listed s [] h = cc
listed s (t ∷ ts) h = elim (Bool-cases (text_eq s t)) [
  | inl same ↦ inl ((text_eq_iff s t).0 same)
  | inr other ↦ inr (listed s ts (sym (ap (λ b. b || is_listed s ts) other) ∙ h))
]

-- What may follow the name of a command.
abbrev pub arguments : List Text
arguments =
    []
    ∷ codes " ha"
    ∷ codes " reset"
    ∷ codes " tg2mc on"
    ∷ codes " tg2mc off"
    ∷ codes " mc2tg on"
    ∷ codes " mc2tg off"
    ∷ codes " confirm on"
    ∷ codes " confirm off"
    ∷ []

module _ (lower : Text → Text) (prefix : Text) where
  setting :
      (a b : Text)
      → OneOf bridge_targets a
      → OneOf bridge_values b
      → OneOf arguments (32 ∷ a ++ 32 ∷ b)
  setting a b (inl p) (inl q) = rw (p, q) (inr (inr (inr (inl refl))))
  setting a b (inl p) (inr (inl q)) = rw (p, q) (inr (inr (inr (inr (inl refl)))))
  setting a b (inr (inl p)) (inl q) = rw (p, q) (inr (inr (inr (inr (inr (inl refl))))))
  setting a b (inr (inl p)) (inr (inl q)) = rw (p, q) (inr (inr (inr (inr (inr (inr (inl refl)))))))
  setting a b (inr (inr (inl p))) (inl q) =
      rw (p, q) (inr (inr (inr (inr (inr (inr (inr (inl refl))))))))
  setting a b (inr (inr (inl p))) (inr (inl q)) =
      rw (p, q) (inr (inr (inr (inr (inr (inr (inr (inr (inl refl)))))))))
  setting a b (inl p) (inr (inr x)) = absurd x
  setting a b (inr (inl p)) (inr (inr x)) = absurd x
  setting a b (inr (inr (inl p))) (inr (inr x)) = absurd x
  setting a b (inr (inr (inr x))) q = absurd x

  bridge_words : (words : List Text) → OneOf arguments (safe_bridge_words lower prefix words)
  bridge_words [] = inl refl
  bridge_words (word ∷ []) = inl refl
  bridge_words (word ∷ a ∷ []) = elim (Bool-cases (text_eq (lower a) (codes "reset"))) [
    | inl reset ↦ rw reset (inr (inr (inl refl)))
    | inr other ↦ rw other (inl refl)
  ]
  bridge_words (word ∷ a ∷ b ∷ []) = elim (Bool-cases (is_listed (lower a) bridge_targets)) [
    | inr other ↦ rw other (inl refl)
    | inl target ↦ elim (Bool-cases (is_listed (lower b) bridge_values)) [
      | inr other ↦ rw (target, other) (inl refl)
      | inl value ↦
          rw (target, value)
            (setting (lower a) (lower b) (listed (lower a) bridge_targets target)
              (listed (lower b) bridge_values value))
    ]
  ]
  bridge_words (word ∷ a ∷ b ∷ c ∷ words) = inl refl

  -- What is kept of any text is the prefix with `unknown`, or the prefix with the name of a command
  -- that the registry resolves and one of nine listed arguments: no other part of the text is kept.
  pub safe_command_text_lem :
      (is_known : Text → Bool) (body : Text)
      → (safe_command_text lower prefix is_known body ≡ prefix ++ codes "unknown")
        ⊎ ((name arg : Text) × (is_known name ≡ true)
            × OneOf arguments arg
            × (safe_command_text lower prefix is_known body ≡ prefix ++ name ++ arg))
  unfolding safe_command_text safe_bridge_command_text
  safe_command_text_lem is_known body =
      let words = split (strip body) in
      let name = lower (remove_prefix prefix (first_word words)) in
      elim (Bool-cases (is_known name)) [
        | inr unknown ↦ inl (rw unknown refl)
        | inl known ↦ elim (Bool-cases (text_eq name (codes "estado"))) [
          | inl estado ↦
              let named = (text_eq_iff name (codes "estado")).0 estado in
              elim (Bool-cases (asks_ha lower prefix words)) [
                | inl ha ↦
                    inr
                      (name, codes " ha", known, inr (inl refl), rw (known, estado, ha, named) refl)
                | inr no_ha ↦ inr (name, [], known, inl refl, rw (known, estado, no_ha, named) refl)
              ]
          | inr not_estado ↦ elim (Bool-cases (text_eq name (codes "bridge"))) [
            | inl bridge ↦ inr (
              name,
              safe_bridge_words lower prefix words,
              known,
              bridge_words words,
              rw (known, not_estado, bridge, (text_eq_iff name (codes "bridge")).0 bridge) refl,
            )
            | inr other ↦
                inr (name, [], known, inl refl, rw (known, not_estado, other, append-nil) refl)
          ]
        ]
      ]
