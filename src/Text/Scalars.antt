-- ===== src/Text/Scalars.antt =====
-- What holds of every code point of a text holds of its stripped form and of its lines: a text that
-- can be encoded stays one.
use meshcore_control_bridge.Common.{
  ℕ, inl, inr, Bool, false, ◌&&◌, List, [], ◌∷◌, ◌++◌, map, arith, ◌==◌, All, Bool-cases,
  All-append,
}
use meshcore_control_bridge.Text.Utf8.{Text, IsScalar}
use meshcore_control_bridge.Text.Space.{
  is_empty, is_space, is_line_end, lstrip, rstrip, strip, splitlines_from, splitlines, join_lines,
  normalized_lines, split_from, split, join, join_rest, normalized_bridge_text,
}

module _ (P : ℕ → Type 0) where
  All-rstrip : (s : Text) → All P s → All P (rstrip s)
  unfolding rstrip
  All-rstrip [] h = tt
  All-rstrip (c ∷ s) h = elim (Bool-cases (is_empty (rstrip s) && is_space c)) [
    | inl gone ↦ rw gone tt
    | inr kept ↦ rw kept (h.0, All-rstrip s h.1)
  ]

  All-lstrip : (s : Text) → All P s → All P (lstrip s)
  unfolding lstrip
  All-lstrip [] h = tt
  All-lstrip (c ∷ s) h = elim (Bool-cases (is_space c)) [
    | inl gone ↦ rw gone (All-lstrip s h.1)
    | inr kept ↦ rw kept h
  ]

  All-splitlines_from :
      (cr : Bool) (line s : Text) → All P line → All P s → All (All P) (splitlines_from cr line s)
  unfolding splitlines_from
  All-splitlines_from cr [] [] h k = tt
  All-splitlines_from cr (d ∷ line) [] h k = (h, tt)
  All-splitlines_from cr line (c ∷ s) h k =
      let longer = All-append P line (c ∷ []) h (k.0, tt) in
      elim (Bool-cases (cr && c == 10)) [
        | inl skip ↦ rw skip (All-splitlines_from (c == 13) [] s tt k.1)
        | inr read ↦ elim (Bool-cases (is_line_end c)) [
          | inl ends ↦ rw (read, ends) (h, All-splitlines_from (c == 13) [] s tt k.1)
          | inr inside ↦
              rw (read, inside) (All-splitlines_from (c == 13) (line ++ c ∷ []) s longer k.1)
        ]
      ]

  All-join_lines : (ls : List Text) → P 10 → All (All P) ls → All P (join_lines (map rstrip ls))
  unfolding join_lines
  All-join_lines [] p h = tt
  All-join_lines (l ∷ []) p h = All-rstrip l h.0
  All-join_lines (l ∷ m ∷ ls) p h =
      All-append P (rstrip l) _ (All-rstrip l h.0) (p, All-join_lines (m ∷ ls) p h.1)

module _ (P : ℕ → Type 0) where
  All-split_from : (w s : Text) → All P w → All P s → All (All P) (split_from w s)
  unfolding split_from
  All-split_from [] [] h k = tt
  All-split_from (d ∷ w) [] h k = (h, tt)
  All-split_from w (c ∷ s) h k = elim (Bool-cases (is_space c)) [
    | inl space ↦ elim (Bool-cases (is_empty w)) [
      | inl none_read ↦ rw (space, none_read) (All-split_from [] s tt k.1)
      | inr word ↦ rw (space, word) (h, All-split_from [] s tt k.1)
    ]
    | inr letter ↦
        rw letter (All-split_from (w ++ c ∷ []) s (All-append P w (c ∷ []) h (k.0, tt)) k.1)
  ]

  All-join_rest : (ws : List Text) → P 32 → All (All P) ws → All P (join_rest ws)
  All-join_rest [] p h = tt
  All-join_rest (w ∷ ws) p h = (p, All-append P w (join_rest ws) h.0 (All-join_rest ws p h.1))

  All-join : (ws : List Text) → P 32 → All (All P) ws → All P (join ws)
  All-join [] p h = tt
  All-join (w ∷ ws) p h = All-append P w (join_rest ws) h.0 (All-join_rest ws p h.1)

pub normalized_bridge_text-IsScalar :
    (text : Text) → All IsScalar text → All IsScalar (normalized_bridge_text text)
unfolding normalized_bridge_text split strip
normalized_bridge_text-IsScalar text v =
    All-join IsScalar (split_from [] (rstrip (lstrip text))) (inl (omega arith)) (
      All-split_from IsScalar [] (rstrip (lstrip text)) tt
        (All-rstrip IsScalar (lstrip text) (All-lstrip IsScalar text v)))

pub normalized_lines-IsScalar :
    (text : Text) → All IsScalar text → All IsScalar (normalized_lines text)
unfolding normalized_lines splitlines strip
normalized_lines-IsScalar text v =
    All-join_lines IsScalar (splitlines_from false [] (rstrip (lstrip text))) (inl (omega arith)) (
      All-splitlines_from IsScalar false [] (rstrip (lstrip text)) tt
        (All-rstrip IsScalar (lstrip text) (All-lstrip IsScalar text v)))
