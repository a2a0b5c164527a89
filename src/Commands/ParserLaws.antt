-- ===== src/Commands/ParserLaws.antt =====
-- A command that is written plainly is read back: its name in lower case, and its arguments.
use meshcore_control_bridge.Common.{
  ℕ, ◌≡◌, refl, Bool, true, false, some, List, [], ◌∷◌, ◌++◌, arith, ◌==◌, drop, length, All,
  All-append,
}
use mathlib.Core.List.{append-nil, append_assoc}
use meshcore_control_bridge.Text.Utf8.{Text}
use meshcore_control_bridge.Text.Space.{is_space, is_empty, strip, join, join_rest}
use meshcore_control_bridge.Text.Words.{IsWord, NoSpace, strip-join}
use meshcore_control_bridge.Commands.Shlex.{
  is_blank, is_quote, in_word, lex_char, lex_end, lex_from, shlex_split,
}
use meshcore_control_bridge.Commands.Parser.{starts_with, parse_command}

-- A word with no white space, no quotation mark and no backslash.
abbrev pub IsPlain : Text → Type 0
IsPlain w =
    (is_empty w ≡ false) × NoSpace w × All (λ c. (is_quote c ≡ false) × ((c == b'\\') ≡ false)) w

blank-space : (c : ℕ) → is_space c ≡ false → is_blank c ≡ false
unfolding is_space is_blank
blank-space c h = ground arith

is_blank_space : is_blank 32 ≡ true
unfolding is_blank
is_blank_space = refl

lex_from-append :
    (t x r : Text) (q : Bool)
    → NoSpace x
    → All (λ c. (is_quote c ≡ false) × ((c == b'\\') ≡ false)) x
    → lex_from (in_word t q) (x ++ r) ≡ lex_from (in_word (t ++ x) q) r
unfolding lex_from lex_char
lex_from-append t [] r q h k = rw append-nil
lex_from-append t (c ∷ x) r q h k =
    rw (blank-space c h.0, k.0.0, k.0.1, lex_from-append (t ++ c ∷ []) x r q h.1 k.1, append_assoc)

lex_from-join_rest :
    (c : ℕ) (t : Text) (ws : List Text)
    → All IsPlain ws
    → lex_from (in_word (c ∷ t) false) (join_rest ws) ≡ some ((c ∷ t) ∷ ws)
unfolding lex_from lex_char lex_end
lex_from-join_rest c t [] h = refl
lex_from-join_rest c t ([] ∷ ws) h = cc (h.0.0)
lex_from-join_rest c t ((d ∷ w) ∷ ws) h = rw (
  is_blank_space,
  blank-space d h.0.1.0,
  h.0.2.0.0,
  h.0.2.0.1,
  lex_from-append (d ∷ []) w (join_rest ws) false h.0.1.1 h.0.2.1,
  lex_from-join_rest d w ws h.1,
)

shlex_split-join : (ws : List Text) → All IsPlain ws → shlex_split (join ws) ≡ some ws
unfolding shlex_split lex_from lex_char lex_end
shlex_split-join [] h = refl
shlex_split-join ([] ∷ ws) h = cc (h.0.0)
shlex_split-join ((c ∷ w) ∷ ws) h = rw (
  blank-space c h.0.1.0,
  h.0.2.0.0,
  h.0.2.0.1,
  lex_from-append (c ∷ []) w (join_rest ws) false h.0.1.1 h.0.2.1,
  lex_from-join_rest c w ws h.1,
)

starts_with-append : (p s : Text) → starts_with (p ++ s) p ≡ true
unfolding starts_with
starts_with-append [] s = refl
starts_with-append (c ∷ p) s = ground (arith, starts_with-append p s)

drop-append : (p s : Text) → drop (length p) (p ++ s) ≡ s
drop-append [] s = refl
drop-append (c ∷ p) s = drop-append p s

words_of : (ws : List Text) → All IsPlain ws → All IsWord ws
words_of [] h = tt
words_of (w ∷ ws) h = ((h.0.0, h.0.1), words_of ws h.1)

-- For every `lower`, a prefix that is a word, and plain words: the prefix and the words, joined by
-- blanks, parse to the command with the first word in lower case as its name and the others as its
-- arguments.
pub parse_command-join :
    (lower : Text → Text) (prefix name : Text) (args : List Text)
    → IsWord prefix
    → All IsPlain (name ∷ args)
    → parse_command lower (prefix ++ join (name ∷ args)) prefix
      ≡ some (record { name = lower name; args = args })
unfolding parse_command
parse_command-join lower (p ∷ ps) (c ∷ name) args h k =
    let prefix : Text = p ∷ ps in
    let ws = words_of args k.1 in
    let whole : strip (prefix ++ join ((c ∷ name) ∷ args)) ≡ prefix ++ join ((c ∷ name) ∷ args) =
      rw (← append_assoc prefix (c ∷ name) (join_rest args)) (
        strip-join ((prefix ++ c ∷ name) ∷ args)
          ((refl, All-append _ prefix (c ∷ name) h.1 k.0.1), ws)) in
    rw (
      whole,
      starts_with-append prefix (join ((c ∷ name) ∷ args)),
      drop-append prefix (join ((c ∷ name) ∷ args)),
      strip-join ((c ∷ name) ∷ args) ((refl, k.0.1), ws),
      shlex_split-join ((c ∷ name) ∷ args) k,
    )
parse_command-join lower [] name args h k = cc (h.0)
parse_command-join lower (p ∷ ps) [] args h k = cc (k.0.0)
