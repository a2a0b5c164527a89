-- ===== src/Commands/Shlex.antt =====
-- `shlex.split` of Python's standard library, as commands/parser.py calls it: POSIX rules, no
-- comments, words split at blanks, tabs and line ends.
use meshcore_control_bridge.Common.{
  ℕ, Bool, true, false, not, ◌&&◌, ◌||◌, Option, none, some, List, [], ◌∷◌, ◌++◌, ◌==◌,
  if◌then◌else◌,
}
use meshcore_control_bridge.Text.Utf8.{Text}
use meshcore_control_bridge.Text.Space.{is_empty}

-- Between words, in a word, inside quotes of a kind, or behind a backslash: there `quoting q` is
-- the state to go back to.
pub data Mode : Type 0 where
  blank word : Mode
  quoting : ℕ → Mode
  escaping : Mode
  escaping_in : ℕ → Mode

pub record Lexer : Type 0 where
  pub mode : Mode
  pub token : Text
  pub quoted : Bool

abbrev pub between : Lexer
between = record { mode = blank; token = []; quoted = false }

unfoldable pub is_blank : ℕ → Bool
is_blank c = c == 32 || c == 9 || c == 13 || c == 10

unfoldable pub is_quote : ℕ → Bool
is_quote c = c == b'"' || c == 39

abbrev pub in_word : Text → Bool → Lexer
in_word token quoted = record { mode = word; token = token; quoted = quoted }

-- One character: the next state, and the word that ends here.
unfoldable pub lex_char : Mode → Text → Bool → ℕ → Lexer × Option Text
lex_char blank token quoted c =
    if is_blank c
    then (between, none)
    else if c == b'\\'
    then (record { mode = escaping; token = []; quoted = false }, none)
    else if is_quote c
    then (record { mode = quoting c; token = []; quoted = false }, none)
    else (in_word (c ∷ []) false, none)
lex_char word token quoted c =
    if is_blank c
    then (between, if is_empty token && not quoted then none else some token)
    else if is_quote c
    then (record { mode = quoting c; token = token; quoted = quoted }, none)
    else if c == b'\\'
    then (record { mode = escaping; token = token; quoted = quoted }, none)
    else (in_word (token ++ c ∷ []) quoted, none)
lex_char (quoting q) token quoted c =
    if c == q
    then (in_word token true, none)
    else if c == b'\\' && q == b'"'
    then (record { mode = escaping_in q; token = token; quoted = true }, none)
    else (record { mode = quoting q; token = token ++ c ∷ []; quoted = true }, none)
lex_char escaping token quoted c = (in_word (token ++ c ∷ []) quoted, none)
lex_char (escaping_in q) token quoted c = (
  record {
    mode = quoting q;
    token = if not (c == b'\\') && not (c == q) then token ++ b'\\' ∷ c ∷ [] else token ++ c ∷ [];
    quoted = quoted;
  },
  none,
)

-- The end of the text; `none` is the `ValueError` for an open quotation or escape.
unfoldable pub lex_end : Mode → Text → Bool → Option (List Text)
lex_end blank token quoted = some []
lex_end word token quoted = some (if is_empty token && not quoted then [] else token ∷ [])
lex_end (quoting q) token quoted = none
lex_end escaping token quoted = none
lex_end (escaping_in q) token quoted = none

abbrev pub emit : Option Text → Option (List Text) → Option (List Text)
emit none words = words
emit (some w) none = none
emit (some w) (some words) = some (w ∷ words)

unfoldable pub lex_from : Lexer → Text → Option (List Text)
lex_from l [] = lex_end l.mode l.token l.quoted
lex_from l (c ∷ s) =
    let (l', ended) = lex_char l.mode l.token l.quoted c in emit ended (lex_from l' s)

unfoldable pub shlex_split : Text → Option (List Text)
shlex_split s = lex_from between s
