-- ===== src/Text/Space.antt =====
-- White space of Python texts: `strip`, `rstrip`, `split`, `splitlines` and `" ".join`, as
-- `_normalized_bridge_text` of telegram/service.py and `_trim_lora_response` of app.py use them.
use meshcore_control_bridge.Common.{
  ℕ, Bool, true, false, not, ◌&&◌, ◌||◌, List, [], ◌∷◌, ◌++◌, map, leb, ◌==◌, if◌then◌else◌,
}
use meshcore_control_bridge.Text.Utf8.{Text}

-- `str.isspace` of one code point.
unfoldable pub is_space : ℕ → Bool
is_space c =
    (leb 9 c && leb c 13)
    || (leb 28 c && leb c 32)
    || c == 0x85
    || c == 0xA0
    || c == 0x1680
    || (leb 0x2000 c && leb c 0x200A)
    || c == 0x2028
    || c == 0x2029
    || c == 0x202F
    || c == 0x205F
    || c == 0x3000

-- The code points at which `str.splitlines` ends a line.
unfoldable pub is_line_end : ℕ → Bool
is_line_end c =
    (leb 10 c && leb c 13) || (leb 28 c && leb c 30) || c == 0x85 || c == 0x2028 || c == 0x2029

abbrev pub is_empty {ℓ} : {A : Type ℓ} → List A → Bool
is_empty [] = true
is_empty (c ∷ s) = false

unfoldable pub lstrip : Text → Text
lstrip [] = []
lstrip (c ∷ s) = let rest = lstrip s in if is_space c then rest else c ∷ s

unfoldable pub rstrip : Text → Text
rstrip [] = []
rstrip (c ∷ s) = let rest = rstrip s in if is_empty rest && is_space c then [] else c ∷ rest

unfoldable pub strip : Text → Text
strip s = rstrip (lstrip s)

-- `s.split()`: `w` is the word that is being read.
unfoldable pub split_from : Text → Text → List Text
split_from w [] = if is_empty w then [] else w ∷ []
split_from w (c ∷ s) =
    let rest = split_from (if is_space c then [] else w ++ c ∷ []) s in
    if is_space c && not (is_empty w) then w ∷ rest else rest

unfoldable pub split : Text → List Text
split s = split_from [] s

-- `" ".join(words)`, and the rest of it behind the first word.
abbrev pub join_rest : List Text → Text
join_rest [] = []
join_rest (w ∷ ws) = 32 ∷ (w ++ join_rest ws)

abbrev pub join : List Text → Text
join [] = []
join (w ∷ ws) = w ++ join_rest ws

-- `s.splitlines()`: `line` is what has been read of the line, `after_cr` says that the last code
-- point was a carriage return, whose line feed belongs to the same end of line.
unfoldable pub splitlines_from : Bool → Text → Text → List Text
splitlines_from after_cr line [] = if is_empty line then [] else line ∷ []
splitlines_from after_cr line (c ∷ s) =
    let skip = after_cr && c == 10 in
    let rest = splitlines_from (c == 13) (if skip || is_line_end c then [] else line ++ c ∷ []) s in
    if skip then rest else if is_line_end c then line ∷ rest else rest

unfoldable pub splitlines : Text → List Text
splitlines s = splitlines_from false [] s

-- `"\n".join(lines)`
unfoldable pub join_lines : List Text → Text
join_lines [] = []
join_lines (l ∷ []) = l
join_lines (l ∷ m ∷ ls) = l ++ 10 ∷ join_lines (m ∷ ls)

-- `_normalized_bridge_text` and `_normalize_text`
unfoldable pub normalized_bridge_text : Text → Text
normalized_bridge_text text = join (split (strip text))

-- The lines of a response without the white space at their ends.
unfoldable pub normalized_lines : Text → Text
normalized_lines text = join_lines (map rstrip (splitlines (strip text)))
