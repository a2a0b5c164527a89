-- ===== src/Text/Trim.antt =====
-- `_truncate_utf8` and `_trim_lora_response` of app.py: a response is cut to the bytes that one
-- MeshCore message may have.
use meshcore_control_bridge.Common.{
  ℕ, zero, suc, ◌+◌, ◌-◌, ◌≤◌, ◌<◌, ◌≡◌, ap, not, ◌&&◌, [], ◌∷◌, ◌++◌, arith, leb, ltb, ◌==◌,
  if◌then◌else◌, length, take, All, codes, le→leb, lt→leb,
}
use native.Mathlib.Decide.{dec_le}
use meshcore_control_bridge.Text.Utf8.{
  Text, IsScalar, encode, byte_len, decode_ignore, fit, decode_ignore-take-encode, fit_bound,
  fit_all, fit-zero, fit-prefix, fit_longest,
}
use meshcore_control_bridge.Text.Space.{is_empty, rstrip, normalized_lines}
use meshcore_control_bridge.Text.Scalars.{normalized_lines-IsScalar}

unfoldable pub truncate_utf8 : Text → ℕ → Text
truncate_utf8 text max_bytes =
    if max_bytes == 0
    then []
    else if leb (byte_len text) max_bytes
    then text
    else decode_ignore (take max_bytes (encode text))

-- `text[:-1]`
unfoldable pub drop_last : Text → Text
drop_last [] = []
drop_last (c ∷ []) = []
drop_last (c ∷ d ∷ s) = c ∷ drop_last (d ∷ s)

abbrev pub detail_suffix : Text
detail_suffix = codes "\n... pide detalle"

-- The `while` of `_trim_lora_response`, with fuel.
unfoldable pub shrink : ℕ → Text → Text → ℕ → Text
shrink zero body suffix max_bytes = body
shrink (suc fuel) body suffix max_bytes =
    let rest = shrink fuel (rstrip (drop_last body)) suffix max_bytes in
    if not (is_empty body) && ltb max_bytes (byte_len (body ++ suffix)) then rest else body

unfoldable pub trim_lora_response : Text → ℕ → Text
trim_lora_response text max_bytes =
    let normalized = normalized_lines text in
    if leb (byte_len normalized) max_bytes
    then normalized
    else if leb max_bytes (byte_len detail_suffix)
    then truncate_utf8 normalized max_bytes
    else (let body = rstrip (truncate_utf8 normalized (max_bytes - byte_len detail_suffix)) in
        shrink (length body) body detail_suffix max_bytes ++ detail_suffix)

-- On a text that can be encoded, the bytes that are cut, and decoded again, are the longest
-- prefix that fits.
pub truncate_utf8-eq-fit :
    (text : Text) (max_bytes : ℕ)
    → All IsScalar text
    → truncate_utf8 text max_bytes ≡ fit max_bytes text
unfolding truncate_utf8
truncate_utf8-eq-fit text max_bytes v = ground (
  arith,
  fit_all max_bytes text,
  ap (λ (n : ℕ). fit n text) {x = max_bytes} {y = 0},
  fit-zero text,
  decode_ignore-take-encode max_bytes text v,
)

-- For a text that can be encoded, what is left of it is a prefix, has at most `max_bytes` bytes,
-- and is the longest prefix that has.
pub truncate_utf8_longest :
    (text : Text) (max_bytes : ℕ)
    → All IsScalar text
    → ((r : Text) × (truncate_utf8 text max_bytes ++ r ≡ text))
      × (byte_len (truncate_utf8 text max_bytes) ≤ max_bytes)
      × ((p r : Text)
          → p ++ r ≡ text
          → byte_len p ≤ max_bytes
          → length p ≤ length (truncate_utf8 text max_bytes))
truncate_utf8_longest text max_bytes v = rw (truncate_utf8-eq-fit text max_bytes v) (
  fit-prefix max_bytes text,
  fit_bound max_bytes text,
  λ p r e h. rw e at (fit_longest max_bytes p r h),
)

byte_len-drop_last : (s : Text) → length (drop_last s) + (if is_empty s then 0 else 1) ≡ length s
unfolding drop_last
byte_len-drop_last [] = omega arith
byte_len-drop_last (c ∷ []) = omega arith
byte_len-drop_last (c ∷ d ∷ s) = omega (arith, byte_len-drop_last (d ∷ s))

length-rstrip-le : (s : Text) → length (rstrip s) ≤ length s
unfolding rstrip
length-rstrip-le [] = omega arith
length-rstrip-le (c ∷ s) = ground (arith, length-rstrip-le s)

-- With as much fuel as the text has code points, the loop ends by its own test.
shrink_done :
    (fuel : ℕ) (body suffix : Text) (max_bytes : ℕ)
    → length body ≤ fuel
    → byte_len suffix ≤ max_bytes
    → byte_len (shrink fuel body suffix max_bytes ++ suffix) ≤ max_bytes
unfolding shrink
shrink_done zero [] suffix m h k = k
shrink_done zero (c ∷ s) suffix m h k = absurd (omega arith)
shrink_done (suc fuel) [] suffix m h k = k
shrink_done (suc fuel) (c ∷ s) suffix m h k = ground (
  arith,
  shrink_done fuel (rstrip (drop_last (c ∷ s))) suffix m,
  length-rstrip-le (drop_last (c ∷ s)),
  byte_len-drop_last (c ∷ s),
)

-- The three cases of a trim.
module _ (text : Text) (max_bytes : ℕ) where
  trim_whole :
      byte_len (normalized_lines text) ≤ max_bytes
      → trim_lora_response text max_bytes ≡ normalized_lines text
  unfolding trim_lora_response
  trim_whole h = rw (le→leb _ _ h)

  trim_narrow :
      max_bytes < byte_len (normalized_lines text)
      → max_bytes ≤ byte_len detail_suffix
      → trim_lora_response text max_bytes ≡ truncate_utf8 (normalized_lines text) max_bytes
  unfolding trim_lora_response
  trim_narrow h k = rw (lt→leb _ _ h, le→leb _ _ k)

  trim_cut :
      max_bytes < byte_len (normalized_lines text)
      → byte_len detail_suffix < max_bytes
      → (body : Text) × (trim_lora_response text max_bytes ≡ body ++ detail_suffix)
        × (byte_len (body ++ detail_suffix) ≤ max_bytes)
  unfolding trim_lora_response
  trim_cut h k =
      let body =
        rstrip (truncate_utf8 (normalized_lines text) (max_bytes - byte_len detail_suffix)) in
      (
        shrink (length body) body detail_suffix max_bytes,
        rw (lt→leb _ _ h, lt→leb _ _ k),
        shrink_done (length body) body detail_suffix max_bytes (omega arith) (omega arith),
      )

-- For every response text that can be encoded, and every limit: the trimmed text has at most
-- `max_bytes` bytes; where the normalised lines fit they are sent as they are; otherwise, where
-- the limit has room for it, the text ends with the suffix that points to the detail.
pub trim_lora_response_lem :
    (text : Text) (max_bytes : ℕ)
    → All IsScalar text
    → (byte_len (trim_lora_response text max_bytes) ≤ max_bytes)
      × (byte_len (normalized_lines text) ≤ max_bytes
          → trim_lora_response text max_bytes ≡ normalized_lines text)
      × (max_bytes < byte_len (normalized_lines text)
          → byte_len detail_suffix < max_bytes
          → (body : Text) × (trim_lora_response text max_bytes ≡ body ++ detail_suffix))
trim_lora_response_lem text max_bytes v = (
  bound,
  trim_whole text max_bytes,
  λ h k. let (body, e, _) = trim_cut text max_bytes h k in (body, e),
)
  where
    bound : byte_len (trim_lora_response text max_bytes) ≤ max_bytes
    bound = elim (dec_le (byte_len (normalized_lines text)) max_bytes) [
      | yes h ↦ rw (trim_whole text max_bytes h) h
      | no h ↦ elim (dec_le max_bytes (byte_len detail_suffix)) [
        | yes k ↦
            rw (trim_narrow text max_bytes (omega arith) k)
              (truncate_utf8_longest _ max_bytes (normalized_lines-IsScalar text v)).1
        | no k ↦ let (body, e, b) = trim_cut text max_bytes (omega arith) (omega arith) in rw e b
      ]
    ]
