-- ===== src/Config/Tokens.antt =====
-- `ck_config_parse_token` of c/config/ck_config.c: a word, or a string in quotes with escapes.
use ckarta.Prelude.{
  ℕ, ◌+◌, ◌<◌, ◌≡◌, refl, sym, ap, ◌∙◌, Bool, true, false, ◌&&◌, ◌||◌, [], ◌∷◌, ◌++◌, append_assoc,
  append-nil, Option, none, some, leb, ◌==◌, if◌then◌else◌, length, length-append, Bytes, arith,
  Option-cases, inl, inr,
}
use ckarta.Config.{
  Message, unterminated_escape, unsupported_escape, token_too_long, unterminated_string,
}

abbrev pub quote : ℕ
quote = 34

abbrev pub backslash : ℕ
backslash = 92

abbrev pub is_space : ℕ → Bool
is_space c = leb 9 c && leb c 13 || c == 32

-- `;` and `#`.
abbrev pub is_stop : ℕ → Bool
is_stop c = is_space c || c == 59 || c == 35

-- A token and the input behind it, an error, or the -1 of an empty token, which comes without a text.
pub data Token : Type 0 where
  token : Bytes → Bytes → Token
  failed : Message → Token
  nothing : Token

unfoldable pub finish : Bytes → Bytes → Token
finish text rest = if length text == 0 then nothing else token text rest

-- What a character means between quotes.
pub data Kind : Type 0 where
  ends escapes plain : Kind

abbrev pub kind : ℕ → Kind
kind c = if c == quote then ends else if c == backslash then escapes else plain

-- The character behind a backslash.
abbrev pub escape_of : ℕ → Option ℕ
escape_of c =
    if c == quote || c == backslash
    then some c
    else if c == 110
    then some 10
    else if c == 116
    then some 9
    else none

abbrev pub is_full : ℕ → Bytes → Bool
is_full size text = leb size (length text + 1)

-- The loop between quotes; `escaped` is whether a backslash stands before the input.
unfoldable pub scan_quoted : ℕ → Bool → Bytes → Bytes → Token
unfolding finish
scan_quoted size true text [] = failed unterminated_escape
scan_quoted size true text (c ∷ p) = elim (escape_of c) [
  | none ↦ failed unsupported_escape
  | some ch ↦ elim (is_full size text) [
    | true ↦ failed token_too_long
    | false ↦ scan_quoted size false (text ++ (ch ∷ [])) p
  ]
]
scan_quoted size false text [] = failed unterminated_string
scan_quoted size false text (c ∷ p) = elim (kind c) [
  | ends ↦ finish text p
  | escapes ↦ scan_quoted size true text p
  | plain ↦ elim (is_full size text) [
    | true ↦ failed token_too_long
    | false ↦ scan_quoted size false (text ++ (c ∷ [])) p
  ]
]

-- The loop over a word.
unfoldable pub scan_word : ℕ → Bytes → Bytes → Token
unfolding finish
scan_word size text [] = finish text []
scan_word size text (c ∷ p) = elim (is_stop c) [
  | true ↦ finish text (c ∷ p)
  | false ↦ elim (is_full size text) [
    | true ↦ failed token_too_long
    | false ↦ scan_word size (text ++ (c ∷ [])) p
  ]
]

unfoldable pub parse_token : ℕ → Bytes → Token
unfolding scan_quoted scan_word
parse_token size [] = scan_word size [] []
parse_token size (c ∷ p) = elim (c == quote) [
  | true ↦ scan_quoted size false [] p
  | false ↦ scan_word size [] (c ∷ p)
]

-- The letter behind a backslash that stands for a character, for those that need one.
abbrev pub letter_of : ℕ → Option ℕ
letter_of c =
    if c == quote || c == backslash
    then some c
    else if c == 10
    then some 110
    else if c == 9
    then some 116
    else none

-- The way to write a text between quotes, with the closing quote.
unfoldable pub quoted : Bytes → Bytes
quoted [] = quote ∷ []
quoted (c ∷ text) = elim (letter_of c) [
  | none ↦ c ∷ quoted text
  | some d ↦ backslash ∷ d ∷ quoted text
]

letter_of-none : (c : ℕ) → letter_of c ≡ none → kind c ≡ plain
letter_of-none c h = ground arith

escape_of-letter_of : (c d : ℕ) → letter_of c ≡ some d → escape_of d ≡ some c
escape_of-letter_of c d h = ground arith

room : (size : ℕ) (text : Bytes) → length text + 1 < size → is_full size text ≡ false
room size text h = ground arith

pub plain_step :
    (size c : ℕ) (before p : Bytes)
    → kind c ≡ plain
    → length before + 1 < size
    → scan_quoted size false before (c ∷ p) ≡ scan_quoted size false (before ++ c ∷ []) p
unfolding scan_quoted
plain_step size c before p k h = rw (k, room size before h, scan_quoted) refl

escape_step :
    (size c d : ℕ) (before p : Bytes)
    → escape_of d ≡ some c
    → length before + 1 < size
    → scan_quoted size false before (backslash ∷ d ∷ p)
      ≡ scan_quoted size false (before ++ c ∷ []) p
unfolding scan_quoted
escape_step size c d before p k h = rw (k, room size before h, scan_quoted) refl

char_step :
    (size c : ℕ) (before text rest : Bytes)
    → length before + 1 < size
    → scan_quoted size false before (quoted (c ∷ text) ++ rest)
      ≡ scan_quoted size false (before ++ c ∷ []) (quoted text ++ rest)
unfolding quoted
char_step size c before text rest h = elim (Option-cases (letter_of c)) [
  | inl n ↦
      rw (n, quoted, ◌++◌) (plain_step size c before (quoted text ++ rest) (letter_of-none c n) h)
  | inr (d, e) ↦
      rw (e, quoted, ◌++◌)
        (escape_step size c d before (quoted text ++ rest) (escape_of-letter_of c d e) h)
]

scan_quoted-quoted :
    (size : ℕ) (before text rest : Bytes)
    → length before + length text < size
    → scan_quoted size false before (quoted text ++ rest) ≡ finish (before ++ text) rest
unfolding scan_quoted quoted
scan_quoted-quoted size before [] rest h = ap (λ x. finish x rest) (sym (append-nil before))
scan_quoted-quoted size before (c ∷ text) rest h =
    let next : length (before ++ c ∷ []) + length text < size =
      omega (arith, length-append before (c ∷ [])) in
    char_step size c before text rest (omega arith)
    ∙ scan_quoted-quoted size (before ++ c ∷ []) text rest next
    ∙ ap (λ x. finish x rest) (append_assoc before (c ∷ []) text)

quoted_start : (size : ℕ) (p : Bytes) → parse_token size (quote ∷ p) ≡ scan_quoted size false [] p
unfolding parse_token
quoted_start size p = refl

-- Any text that is not empty and shorter than the buffer, written between quotes with the escapes
-- for `"`, `\`, newline and tab, is read back as it is, and the input behind it is left.
pub parse_token-quoted :
    (size : ℕ) (c : ℕ) (text rest : Bytes)
    → length text + 1 < size
    → parse_token size (quote ∷ quoted (c ∷ text) ++ rest) ≡ token (c ∷ text) rest
unfolding finish
parse_token-quoted size c text rest h =
    quoted_start size (quoted (c ∷ text) ++ rest)
    ∙ scan_quoted-quoted size [] (c ∷ text) rest (omega arith)
    ∙ ground arith
