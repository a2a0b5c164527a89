-- ===== src/Telegram/Render.antt =====
-- The texts that telegram/service.py forwards: `render_meshcore_forward_message`,
-- `render_telegram_forward_message` and the cutting of texts that are too long.
pub mod Laws
use meshcore_control_bridge.Common.{
  ℕ, ◌+◌, ◌-◌, ◌<◌, Bool, true, false, Option, none, some, List, [], ◌∷◌, ◌++◌, arith, leb, ltb,
  if◌then◌else◌, take, codes, ◌==◌,
}
use meshcore_control_bridge.Text.Utf8.{Text, encode, byte_len, decode_ignore}
use meshcore_control_bridge.Text.Space.{is_empty, rstrip, normalized_bridge_text}

-- `ForwardRenderResult`
pub record ForwardRenderResult : Type 0 where
  pub text : Option Text
  pub truncated : Bool

unfoldable pub truncate_utf8_boundary : Text → ℕ → Text
truncate_utf8_boundary value max_bytes =
    if leb (byte_len value) max_bytes then value else decode_ignore (take max_bytes (encode value))

-- `value.split(" ")`: `w` is the part that is being read.
unfoldable pub split_blank : Text → Text → List Text
split_blank w [] = w ∷ []
split_blank w (c ∷ s) =
    let rest = split_blank (if c == 32 then [] else w ++ c ∷ []) s in
    if c == 32 then w ∷ rest else rest

abbrev pub ellipsis : Text
ellipsis = codes "..."

-- The loop over the words, which stops at the first word that does not fit.
unfoldable pub gather : ℕ → Text → List Text → Text
gather budget output [] = output
gather budget output (word ∷ words) =
    let candidate = if is_empty output then word else output ++ 32 ∷ word in
    let rest = gather budget candidate words in
    if leb (byte_len candidate) budget then rest else output

unfoldable pub truncate_utf8_words : Text → ℕ → Option Text
truncate_utf8_words value max_bytes =
    if ltb max_bytes (byte_len ellipsis + 1)
    then none
    else (let budget = max_bytes - byte_len ellipsis in
        let words = gather budget [] (split_blank [] value) in
        let output =
          rstrip (if is_empty words then rstrip (truncate_utf8_boundary value budget) else words) in
        if is_empty output then none else some (output ++ ellipsis))

unfoldable pub truncate_utf8_with_suffix : Text → ℕ → Text → Option Text
truncate_utf8_with_suffix value max_bytes suffix =
    if ltb max_bytes (byte_len suffix + 1)
    then none
    else (let output = rstrip (truncate_utf8_boundary value (max_bytes - byte_len suffix)) in
        if is_empty output then none else some (output ++ suffix))

-- What `render_meshcore_forward_message` and `render_telegram_forward_message` have in common:
-- they differ in how they cut a candidate that is too long.
unfoldable pub render_forward : (Text → ℕ → Option Text) → Text → Text → ℕ → ForwardRenderResult
render_forward cut text prefix max_bytes =
    let normalized_text = normalized_bridge_text text in
    let candidate = prefix ++ normalized_text in
    if is_empty normalized_text
    then record { text = none; truncated = false }
    else if leb (byte_len candidate) max_bytes
    then record { text = some candidate; truncated = false }
    else record { text = cut candidate max_bytes; truncated = true }

unfoldable pub render_meshcore_forward_message : Text → Text → ℕ → ForwardRenderResult
unfolding render_forward
render_meshcore_forward_message = render_forward truncate_utf8_words

abbrev pub truncated_suffix : Text
truncated_suffix = codes "... truncado"

unfoldable pub render_telegram_forward_message : Text → Text → ℕ → ForwardRenderResult
unfolding render_forward
render_telegram_forward_message =
    render_forward (λ value max_bytes. truncate_utf8_with_suffix value max_bytes truncated_suffix)
