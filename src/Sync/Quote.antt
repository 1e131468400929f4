-- ===== src/Sync/Quote.antt =====
-- `PosixShellQuote` and the script that carries its result, against how a POSIX shell reads a word.
use devm.Base.{
  ℕ, ◌≡◌, refl, Bool, true, false, Option, none, some, [], ◌∷◌, ◌++◌, append_assoc, arith, nat_beq,
  if◌then◌else◌, nat_eq, bool_eq, pair_eq, any, Bytes, codes, bytes_eq,
}

abbrev quote_mark : ℕ
quote_mark = 39

-- strings.ReplaceAll of a single quote by `'\''`.
escape_quotes : Bytes → Bytes
escape_quotes [] = []
escape_quotes (c ∷ s) =
    (if nat_beq c quote_mark then quote_mark ∷ b'\\' ∷ quote_mark ∷ quote_mark ∷ [] else c ∷ [])
    ++ escape_quotes s

unfoldable pub posix_shell_quote : Bytes → Bytes
unfolding escape_quotes
posix_shell_quote s = quote_mark ∷ (escape_quotes s ++ quote_mark ∷ [])

-- `buildGuestScanScript`, over the fixed body of the script.
unfoldable pub build_guest_scan_script : (body : Bytes) → Bytes → Bytes
unfolding posix_shell_quote
build_guest_scan_script body guest_path =
    codes "set -- " ++ (posix_shell_quote guest_path ++ (10 ∷ body))

-- What ends a word of a shell outside of quotes, or means something there.
abbrev pub is_special : ℕ → Bool
is_special c = any (λ d. nat_beq c d) (codes " ;&|<>()$`\"*?[#~=%" ++ 9 ∷ 10 ∷ [])

-- Where the reader of a word is: outside of quotes, inside single quotes, or behind a backslash.
pub data ReadMode : Type 0 where
  unquoted quoted escaped : ReadMode

abbrev cons_byte : ℕ → Option (Bytes × Bytes) → Option (Bytes × Bytes)
cons_byte c none = none
cons_byte c (some (word, rest)) = some (c ∷ word, rest)

-- How a shell reads one word: what the word is and what follows it, or `none` where an unquoted
-- special byte or an unclosed quote would make it something else than a plain word.
unfoldable pub read_word : ReadMode → Bytes → Option (Bytes × Bytes)
read_word unquoted [] = some ([], [])
read_word quoted [] = none
read_word escaped [] = none
read_word quoted (c ∷ s) = elim (nat_beq c quote_mark) [
  | true ↦ read_word unquoted s
  | false ↦ cons_byte c (read_word quoted s)
]
read_word escaped (c ∷ s) = cons_byte c (read_word unquoted s)
read_word unquoted (c ∷ s) = elim (nat_beq c quote_mark) [
  | true ↦ read_word quoted s
  | false ↦ elim (nat_beq c b'\\') [
    | true ↦ read_word escaped s
    | false ↦ elim (nat_beq c 10) [
      | true ↦ some ([], c ∷ s)
      | false ↦ elim (is_special c) [ true ↦ none | false ↦ cons_byte c (read_word unquoted s) ]
    ]
  ]
]

read_word-escape :
    (s rest : Bytes)
    → read_word quoted (escape_quotes s ++ quote_mark ∷ (10 ∷ rest)) ≡ some (s, 10 ∷ rest)
unfolding read_word escape_quotes
read_word-escape [] rest = refl
read_word-escape (c ∷ s) rest = ground (arith, read_word-escape s rest)

-- A shell reads the quoted text, in front of a line's end, as the text itself, whatever bytes it
-- has, and goes on behind it.
pub read_word-posix_shell_quote :
    (s rest : Bytes) → read_word unquoted (posix_shell_quote s ++ 10 ∷ rest) ≡ some (s, 10 ∷ rest)
unfolding read_word posix_shell_quote
read_word-posix_shell_quote s rest =
    rw (append_assoc (escape_quotes s) (quote_mark ∷ []) (10 ∷ rest)) (read_word-escape s rest)
