-- ===== src/Lint/Tokens.antt =====
-- `CheckAltTokens`, with its table of operators, and `IsCppString`.
use simpledb.Prelude.{
  ℕ, zero, suc, ◌+◌, ◌%◌, Bool, true, ◌&&◌, ◌||◌, List, [], ◌∷◌, Option, none, some, ◌==◌,
  if◌then◌else◌, length, drop, map, ◌++◌,
}
use simpledb.Prelude.Int.{pos}
use simpledb.Prelude.Text.{Text, codes, starts_with, lstrip, replace}
use simpledb.Lint.FileChecks.{Call, count}

-- `_ALT_TOKEN_REPLACEMENT`
unfoldable pub alt_token_replacement : List (Text × Text)
alt_token_replacement =
    (codes "and", codes "&&")
    ∷ (codes "bitor", codes "|")
    ∷ (codes "or", codes "||")
    ∷ (codes "xor", codes "^")
    ∷ (codes "compl", codes "~")
    ∷ (codes "bitand", codes "&")
    ∷ (codes "and_eq", codes "&=")
    ∷ (codes "or_eq", codes "|=")
    ∷ (codes "xor_eq", codes "^=")
    ∷ (codes "not", codes "!")
    ∷ (codes "not_eq", codes "!=")
    ∷ []

-- `(?=[ (]|$)`
ends_token : Text → Bool
ends_token [] = true
ends_token (c ∷ _) = c == 32 || c == b'('

-- The first of the tokens that stands at the front of the text and ends there.
unfoldable pub token_here : List (Text × Text) → Text → Option (Text × Text)
unfolding starts_with ends_token
token_here [] s = none
token_here ((token, operator) ∷ tokens) s =
    let next = token_here tokens s in
    if starts_with token s && ends_token (drop (length token) s)
    then some (token, operator)
    else next

-- `[ =()]`
precedes_token : ℕ → Bool
precedes_token c = c == 32 || c == b'=' || c == b'(' || c == b')'

token_after : ℕ → Text → Option (Text × Text)
unfolding token_here precedes_token alt_token_replacement
token_after c s = if precedes_token c then token_here alt_token_replacement s else none

-- The matches that `finditer` gives; the characters of a match are passed over.
unfoldable pub find_tokens : ℕ → Text → List (Text × Text)
unfolding token_after
find_tokens skip [] = []
find_tokens (suc skip) (c ∷ s) = find_tokens skip s
find_tokens zero (c ∷ s) = elim (token_after c s) [
  | none ↦ find_tokens 0 s
  | some (token, operator) ↦ (token, operator) ∷ find_tokens (length token) s
]

-- `text in line`
unfoldable pub occurs : Text → Text → Bool
unfolding starts_with
occurs sub [] = starts_with sub []
occurs sub (c ∷ line) = starts_with sub (c ∷ line) || occurs sub line

alt_token : ℕ → Text × Text → Call
alt_token linenum (token, operator) = record {
  linenum = pos linenum;
  category = codes "readability/alt_tokens";
  confidence = 2;
  message = codes "Use operator " ++ operator ++ codes " instead of " ++ token;
}

-- `CheckAltTokens` on an elided line.
unfoldable pub check_alt_tokens : ℕ → Text → List Call
unfolding starts_with lstrip occurs alt_token
check_alt_tokens linenum line =
    if starts_with (codes "#") (lstrip line)
    then []
    else if occurs (codes "/*") line || occurs (codes "*/") line
    then []
    else map (alt_token linenum) (find_tokens 0 line)

-- `IsCppString`. A difference and the sum of the same numbers have the same parity.
unfoldable pub is_cpp_string : Text → Bool
unfolding replace count
is_cpp_string line =
    let line' = replace (codes "\\\\") (codes "XX") line in
    (count (codes "\"") line' + count (codes "\\\"") line' + count (codes "'\"'") line') % 2 == 1
