-- ===== src/Text/Utf8.antt =====
-- UTF-8 as Python's `str.encode` and `bytes.decode(errors="ignore")` have it.
-- `_truncate_utf8` of app.py and `_truncate_utf8_boundary` of telegram/service.py cut by it.
use meshcore_control_bridge.Common.{
  ℕ, zero, suc, ◌+◌, ◌-◌, ◌*◌, ◌/◌, ◌%◌, ◌≤◌, ◌<◌, ◌≡◌, refl, ap, ◌⊎◌, inl, inr, ◌&&◌, List, [],
  ◌∷◌, ◌++◌, arith, ltb, leb, ◌==◌, if◌then◌else◌, length, take, length-append, take-append_right,
  take-append_left, All, Bool-cases, leb→le,
}

-- A text is its list of code points.
abbrev pub Text : Type 0
Text = List ℕ

-- A Unicode scalar value: no surrogate, at most 0x10FFFF. `str.encode` raises on any other.
abbrev pub IsScalar : ℕ → Type 0
IsScalar c = (c < 0xD800) ⊎ ((0xE000 ≤ c) × (c < 0x110000))

unfoldable pub encode_char : ℕ → List ℕ
encode_char c =
    if ltb c 0x80
    then c ∷ []
    else if ltb c 0x800
    then (0xC0 + c / 64) ∷ (0x80 + c % 64) ∷ []
    else if ltb c 0x10000
    then (0xE0 + c / 4096) ∷ (0x80 + c / 64 % 64) ∷ (0x80 + c % 64) ∷ []
    else (0xF0 + c / 262144) ∷ (0x80 + c / 4096 % 64) ∷ (0x80 + c / 64 % 64) ∷ (0x80 + c % 64) ∷ []

unfoldable pub encode : Text → List ℕ
encode [] = []
encode (c ∷ s) = encode_char c ++ encode s

abbrev pub byte_len : Text → ℕ
byte_len s = length (encode s)

-- The decoder between two bytes: how many bytes are awaited, the bits read so far, and the range
-- of the next byte.
pub record Decoder : Type 0 where
  pub need : ℕ
  pub bits : ℕ
  pub low : ℕ
  pub high : ℕ

abbrev pub idle : Decoder
idle = record { need = 0; bits = 0; low = 0; high = 0 }

-- one more byte is awaited
abbrev awaiting_last : ℕ → Decoder
awaiting_last bits = record { need = 1; bits = bits; low = 0x80; high = 0xBF }

-- behind the first byte of three, and of four, which limits the second
abbrev awaiting_two : ℕ → Decoder
awaiting_two b = record {
  need = 2;
  bits = b - 0xE0;
  low = if b == 0xE0 then 0xA0 else 0x80;
  high = if b == 0xED then 0x9F else 0xBF;
}

abbrev awaiting_three : ℕ → Decoder
awaiting_three b = record {
  need = 3;
  bits = b - 0xF0;
  low = if b == 0xF0 then 0x90 else 0x80;
  high = if b == 0xF4 then 0x8F else 0xBF;
}

-- A first byte. One that starts no sequence is ignored.
first : ℕ → Decoder × Text
first b =
    if ltb b 0x80
    then (idle, b ∷ [])
    else if ltb b 0xC2
    then (idle, [])
    else if ltb b 0xE0
    then (awaiting_last (b - 0xC0), [])
    else if ltb b 0xF0
    then (awaiting_two b, [])
    else if ltb b 0xF5
    then (awaiting_three b, [])
    else (idle, [])

-- One byte. A sequence that it does not continue is ignored, and the byte is read as a first byte.
feed : Decoder → ℕ → Decoder × Text
unfolding first
feed d b =
    if d.need == 0
    then first b
    else if leb d.low b && leb b d.high
    then (let bits = d.bits * 64 + (b - 0x80) in
        if d.need == 1
        then (idle, bits ∷ [])
        else (record { need = d.need - 1; bits = bits; low = 0x80; high = 0xBF }, []))
    else first b

-- What is left unfinished at the end is ignored too.
decode_from : Decoder → List ℕ → Text
unfolding feed
decode_from d [] = []
decode_from d (b ∷ r) = let (d', out) = feed d b in out ++ decode_from d' r

unfoldable pub decode_ignore : List ℕ → Text
unfolding decode_from
decode_ignore bytes = decode_from idle bytes

-- The longest prefix of `s` whose encoding has at most `n` bytes.
unfoldable pub fit : ℕ → Text → Text
fit n [] = []
fit n (c ∷ s) =
    let rest = fit (n - length (encode_char c)) s in
    if leb (length (encode_char c)) n then c ∷ rest else []

-- What the decoder does at each byte of an encoded code point.
module _ (c : ℕ) where
  feed_single : c < 0x80 → feed idle c ≡ (idle, c ∷ [])
  unfolding feed
  feed_single h = ground arith

  feed_two : 0x80 ≤ c → c < 0x800 → feed idle (0xC0 + c / 64) ≡ (awaiting_last (c / 64), [])
  unfolding feed
  feed_two h k = ground arith

  feed_three :
      0x800 ≤ c → c < 0x10000 → feed idle (0xE0 + c / 4096) ≡ (awaiting_two (0xE0 + c / 4096), [])
  unfolding feed
  feed_three h k = ground arith

  feed_three_second :
      0x800 ≤ c
      → c < 0x10000
      → IsScalar c
      → feed (awaiting_two (0xE0 + c / 4096)) (0x80 + c / 64 % 64) ≡ (awaiting_last (c / 64), [])
  unfolding feed
  feed_three_second h k s = ground arith

  feed_four :
      0x10000 ≤ c
      → c < 0x110000
      → feed idle (0xF0 + c / 262144) ≡ (awaiting_three (0xF0 + c / 262144), [])
  unfolding feed
  feed_four h k = ground arith

  feed_four_second :
      0x10000 ≤ c
      → c < 0x110000
      → feed (awaiting_three (0xF0 + c / 262144)) (0x80 + c / 4096 % 64)
        ≡ (record { need = 2; bits = c / 4096; low = 0x80; high = 0xBF }, [])
  unfolding feed
  feed_four_second h k = ground arith

  feed_four_third :
      feed (record { need = 2; bits = c / 4096; low = 0x80; high = 0xBF }) (0x80 + c / 64 % 64)
      ≡ (awaiting_last (c / 64), [])
  unfolding feed
  feed_four_third = ground arith

  feed_last : feed (awaiting_last (c / 64)) (0x80 + c % 64) ≡ (idle, c ∷ [])
  unfolding feed
  feed_last = ground arith

-- The four forms of an encoded code point.
encode_char-cases :
    (c : ℕ)
    → IsScalar c
    → ((c < 0x80) × (encode_char c ≡ c ∷ []))
      ⊎ ((0x80 ≤ c) × (c < 0x800) × (encode_char c ≡ (0xC0 + c / 64) ∷ (0x80 + c % 64) ∷ []))
      ⊎ ((0x800 ≤ c)
          × (c < 0x10000)
          × (encode_char c ≡ (0xE0 + c / 4096) ∷ (0x80 + c / 64 % 64) ∷ (0x80 + c % 64) ∷ []))
      ⊎ ((0x10000 ≤ c)
          × (c < 0x110000)
          × (encode_char c
              ≡ (0xF0 + c / 262144)
                ∷ (0x80 + c / 4096 % 64)
                ∷ (0x80 + c / 64 % 64)
                ∷ (0x80 + c % 64)
                ∷ []))
unfolding encode_char
encode_char-cases c s = ground arith

-- A whole code point is decoded to itself, whatever follows.
decode-encode_char :
    (c : ℕ) (r : List ℕ)
    → IsScalar c
    → decode_from idle (encode_char c ++ r) ≡ c ∷ decode_from idle r
decode-encode_char c r s = elim (encode_char-cases c s) [
  | inl (h, e) ↦ rw e (unfold decode_from in rw (feed_single c h))
  | inr (inl (h, k, e)) ↦ rw e (unfold decode_from in rw (feed_two c h k, feed_last c))
  | inr (inr (inl (h, k, e))) ↦
      rw e (unfold decode_from in rw (feed_three c h k, feed_three_second c h k s, feed_last c))
  | inr (inr (inr (h, k, e))) ↦ rw e (
      unfold decode_from in
      rw (feed_four c h k, feed_four_second c h k, feed_four_third c, feed_last c))
]

-- The first `k` bytes of the four forms, where they are not all.
cut_two :
    (c k : ℕ)
    → 0x80 ≤ c
    → c < 0x800
    → k < 2
    → decode_from idle (take k ((0xC0 + c / 64) ∷ (0x80 + c % 64) ∷ [])) ≡ []
unfolding decode_from
cut_two c zero h l m = refl
cut_two c (suc zero) h l m = rw (feed_two c h l)
cut_two c (suc (suc k)) h l m = absurd (omega arith)

cut_three :
    (c k : ℕ)
    → 0x800 ≤ c
    → c < 0x10000
    → IsScalar c
    → k < 3
    → decode_from idle (take k ((0xE0 + c / 4096) ∷ (0x80 + c / 64 % 64) ∷ (0x80 + c % 64) ∷ []))
      ≡ []
unfolding decode_from
cut_three c zero h l s m = refl
cut_three c (suc zero) h l s m = rw (feed_three c h l)
cut_three c (suc (suc zero)) h l s m = rw (feed_three c h l, feed_three_second c h l s)
cut_three c (suc (suc (suc k))) h l s m = absurd (omega arith)

cut_four :
    (c k : ℕ)
    → 0x10000 ≤ c
    → c < 0x110000
    → k < 4
    → decode_from idle (
        take k (
          (0xF0 + c / 262144)
          ∷ (0x80 + c / 4096 % 64)
          ∷ (0x80 + c / 64 % 64)
          ∷ (0x80 + c % 64)
          ∷ []))
      ≡ []
unfolding decode_from
cut_four c zero h l m = refl
cut_four c (suc zero) h l m = rw (feed_four c h l)
cut_four c (suc (suc zero)) h l m = rw (feed_four c h l, feed_four_second c h l)
cut_four c (suc (suc (suc zero))) h l m =
    rw (feed_four c h l, feed_four_second c h l, feed_four_third c)
cut_four c (suc (suc (suc (suc k)))) h l m = absurd (omega arith)

-- A code point that is cut short is ignored.
decode-take-encode_char :
    (c k : ℕ)
    → IsScalar c
    → k < length (encode_char c)
    → decode_from idle (take k (encode_char c)) ≡ []
decode-take-encode_char c k s m = elim (encode_char-cases c s) [
  | inl (h, e) ↦
      let z : k ≡ 0 = omega (arith, ap (λ (t : List ℕ). length t) e) in
      rw z (unfold decode_from in refl)
  | inr (inl (h, l, e)) ↦ rw e (cut_two c k h l (omega (arith, ap (λ (t : List ℕ). length t) e)))
  | inr (inr (inl (h, l, e))) ↦
      rw e (cut_three c k h l s (omega (arith, ap (λ (t : List ℕ). length t) e)))
  | inr (inr (inr (h, l, e))) ↦
      rw e (cut_four c k h l (omega (arith, ap (λ (t : List ℕ). length t) e)))
]

-- Cutting the bytes of a text at `n` and decoding what is left, with the broken end ignored, keeps
-- the longest prefix of code points that fits into `n` bytes.
pub decode_ignore-take-encode :
    (n : ℕ) (s : Text) → All IsScalar s → decode_ignore (take n (encode s)) ≡ fit n s
unfolding decode_ignore decode_from encode fit
decode_ignore-take-encode zero [] v = refl
decode_ignore-take-encode (suc n) [] v = refl
decode_ignore-take-encode n (c ∷ s) v = elim (Bool-cases (leb (length (encode_char c)) n)) [
  | inl fits ↦ rw (
    fits,
    take-append_right n (encode_char c) (encode s) (leb→le _ _ fits),
    decode-encode_char c _ v.0,
    decode_ignore-take-encode (n - length (encode_char c)) s v.1,
  )
  | inr over ↦
      rw (over, take-append_left n (encode_char c) (encode s) (ground arith))
        (decode-take-encode_char c n v.0 (ground arith))
]

pub byte_len-append : (s t : Text) → byte_len (s ++ t) ≡ byte_len s + byte_len t
unfolding encode
byte_len-append [] t = omega arith
byte_len-append (c ∷ s) t = omega (
  arith,
  length-append (encode_char c) (encode (s ++ t)),
  length-append (encode_char c) (encode s),
  byte_len-append s t,
)

-- What `fit` keeps is a prefix, it fits, and one more code point does not fit.
pub fit_bound : (n : ℕ) (s : Text) → byte_len (fit n s) ≤ n
unfolding fit encode
fit_bound n [] = omega arith
fit_bound n (c ∷ s) = ground (
  arith,
  fit_bound (n - length (encode_char c)) s,
  length-append (encode_char c) (encode (fit (n - length (encode_char c)) s)),
)

pub fit_all : (n : ℕ) (s : Text) → byte_len s ≤ n → fit n s ≡ s
unfolding fit encode
fit_all n [] h = refl
fit_all n (c ∷ s) h =
    ground (arith, fit_all (n - length (encode_char c)) s, length-append (encode_char c) (encode s))

pub fit-prefix : (n : ℕ) (s : Text) → (r : Text) × (fit n s ++ r ≡ s)
unfolding fit
fit-prefix n [] = ([], refl)
fit-prefix n (c ∷ s) = elim (Bool-cases (leb (length (encode_char c)) n)) [
  | inl fits ↦ let (r, e) = fit-prefix (n - length (encode_char c)) s in (r, rw fits (ap (◌∷◌ c) e))
  | inr over ↦ (c ∷ s, rw over)
]

encode_char_pos : (c : ℕ) → 0 < length (encode_char c)
unfolding encode_char
encode_char_pos c = ground arith

pub fit-zero : (s : Text) → fit 0 s ≡ []
unfolding fit
fit-zero [] = refl
fit-zero (c ∷ s) = ground (arith, encode_char_pos c)

pub fit_longest : (n : ℕ) (p r : Text) → byte_len p ≤ n → length p ≤ length (fit n (p ++ r))
unfolding fit encode
fit_longest n [] r h = omega arith
fit_longest n (c ∷ p) r h =
    ground (
      arith,
      length-append (encode_char c) (encode p),
      fit_longest (n - length (encode_char c)) p r,
    )
