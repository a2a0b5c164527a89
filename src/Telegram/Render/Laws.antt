-- ===== src/Telegram/Render/Laws.antt =====
-- What is forwarded fits into the limit, and is the whole text wherever that fits.
use meshcore_control_bridge.Common.{
  ℕ, ◌-◌, ◌≤◌, ◌<◌, ◌≡◌, refl, true, false, Option, none, some, List, [], ◌∷◌, ◌++◌, arith,
  if◌then◌else◌, All, All-append, ◌↔◌,
}
use meshcore_control_bridge.Text.Utf8.{
  Text, IsScalar, encode, byte_len, byte_len-append, decode_ignore-take-encode, fit_bound,
}
use meshcore_control_bridge.Text.Space.{is_empty, rstrip, normalized_bridge_text}
use meshcore_control_bridge.Text.Scalars.{normalized_bridge_text-IsScalar}
use meshcore_control_bridge.Telegram.Render.{
  ForwardRenderResult, truncate_utf8_boundary, split_blank, ellipsis, gather, truncate_utf8_words,
  truncate_utf8_with_suffix, render_forward, render_meshcore_forward_message, truncated_suffix,
  render_telegram_forward_message,
}

byte_len-nil : byte_len [] ≡ 0
unfolding encode
byte_len-nil = refl

pub byte_len-rstrip-le : (s : Text) → byte_len (rstrip s) ≤ byte_len s
unfolding rstrip
byte_len-rstrip-le [] = omega arith
byte_len-rstrip-le (c ∷ s) = ground (
  arith,
  byte_len-rstrip-le s,
  byte_len-append (c ∷ []) s,
  byte_len-append (c ∷ []) (rstrip s),
  byte_len-nil,
)

truncate_utf8_boundary_bound :
    (value : Text) (n : ℕ) → All IsScalar value → byte_len (truncate_utf8_boundary value n) ≤ n
unfolding truncate_utf8_boundary
truncate_utf8_boundary_bound value n v =
    ground (arith, fit_bound n value, decode_ignore-take-encode n value v)

gather_bound :
    (budget : ℕ) (output : Text) (words : List Text)
    → byte_len output ≤ budget
    → byte_len (gather budget output words) ≤ budget
unfolding gather
gather_bound budget output [] h = h
gather_bound budget output (word ∷ words) h =
    ground
      (arith, gather_bound budget (if is_empty output then word else output ++ 32 ∷ word) words)

-- A cut keeps the limit, where it gives anything at all.
abbrev CutFits : (Text → ℕ → Option Text) → Text → ℕ → Type 0
CutFits cut value n = (t : Text) → cut value n ≡ some t → byte_len t ≤ n

truncate_utf8_words-CutFits :
    (value : Text) (n : ℕ) → All IsScalar value → CutFits truncate_utf8_words value n
unfolding truncate_utf8_words
truncate_utf8_words-CutFits value n v t h =
    let budget = n - byte_len ellipsis in
    let words = gather budget [] (split_blank [] value) in
    let cut = truncate_utf8_boundary value budget in
    ground (
      arith,
      gather_bound budget [] (split_blank [] value),
      truncate_utf8_boundary_bound value budget v,
      byte_len-rstrip-le cut,
      byte_len-rstrip-le (rstrip cut),
      byte_len-rstrip-le words,
      byte_len-append (rstrip words) ellipsis,
      byte_len-append (rstrip (rstrip cut)) ellipsis,
      byte_len-nil,
    )

truncate_utf8_with_suffix-CutFits :
    (value : Text) (n : ℕ) (suffix : Text)
    → All IsScalar value
    → CutFits (λ w k. truncate_utf8_with_suffix w k suffix) value n
unfolding truncate_utf8_with_suffix
truncate_utf8_with_suffix-CutFits value n suffix v t h = ground (
  arith,
  byte_len-append (rstrip (truncate_utf8_boundary value (n - byte_len suffix))) suffix,
  byte_len-rstrip-le (truncate_utf8_boundary value (n - byte_len suffix)),
  truncate_utf8_boundary_bound value (n - byte_len suffix) v,
)

-- The text that a rendering starts from.
abbrev pub candidate : Text → Text → Text
candidate text prefix = prefix ++ normalized_bridge_text text

candidate-IsScalar :
    (text prefix : Text)
    → All IsScalar text
    → All IsScalar prefix
    → All IsScalar (candidate text prefix)
candidate-IsScalar text prefix v p =
    All-append IsScalar prefix _ p (normalized_bridge_text-IsScalar text v)

-- What both renderings promise: what is sent fits; it is the candidate, and not marked as cut,
-- exactly where the text has a word and the candidate fits; and a text without a word gives nothing.
pub record RenderIsExact (text prefix : Text) (max_bytes : ℕ) (r : ForwardRenderResult)
    : Type 0 where
  pub fits : (t : Text) → r.text ≡ some t → byte_len t ≤ max_bytes
  pub whole :
      ((is_empty (normalized_bridge_text text) ≡ false)
        × (byte_len (candidate text prefix) ≤ max_bytes))
      ↔ ((r.text ≡ some (candidate text prefix)) × (r.truncated ≡ false))
  pub blank :
      is_empty (normalized_bridge_text text) ≡ true → (r.text ≡ none) × (r.truncated ≡ false)
  pub cut : r.truncated ≡ true ↔ (
      (is_empty (normalized_bridge_text text) ≡ false)
      × (max_bytes < byte_len (candidate text prefix)))

render_forward-RenderIsExact :
    (cut : Text → ℕ → Option Text) (text prefix : Text) (max_bytes : ℕ)
    → CutFits cut (candidate text prefix) max_bytes
    → RenderIsExact text prefix max_bytes (render_forward cut text prefix max_bytes)
unfolding render_forward
render_forward-RenderIsExact cut text prefix max_bytes fits = record {
  fits = λ t h. ground (arith, fits t);
  whole = ground arith;
  blank = λ h. ground arith;
  cut = ground arith;
}

-- For texts that can be encoded, a Telegram text that is rendered for MeshCore keeps to
-- `RenderIsExact`.
pub render_meshcore_forward_message-RenderIsExact :
    (text prefix : Text) (max_bytes : ℕ)
    → All IsScalar text
    → All IsScalar prefix
    → RenderIsExact text prefix max_bytes (render_meshcore_forward_message text prefix max_bytes)
unfolding render_meshcore_forward_message
render_meshcore_forward_message-RenderIsExact text prefix max_bytes v p =
    render_forward-RenderIsExact truncate_utf8_words text prefix max_bytes
      (truncate_utf8_words-CutFits _ max_bytes (candidate-IsScalar text prefix v p))

-- For texts that can be encoded, a MeshCore text that is rendered for Telegram keeps to
-- `RenderIsExact`.
pub render_telegram_forward_message-RenderIsExact :
    (text prefix : Text) (max_bytes : ℕ)
    → All IsScalar text
    → All IsScalar prefix
    → RenderIsExact text prefix max_bytes (render_telegram_forward_message text prefix max_bytes)
unfolding render_telegram_forward_message
render_telegram_forward_message-RenderIsExact text prefix max_bytes v p =
    render_forward-RenderIsExact (λ w k. truncate_utf8_with_suffix w k truncated_suffix) text prefix
      max_bytes
      (truncate_utf8_with_suffix-CutFits _ max_bytes truncated_suffix
        (candidate-IsScalar text prefix v p))
