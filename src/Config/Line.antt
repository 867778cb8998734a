-- ===== src/Config/Line.antt =====
-- One line of the file: the body of the loop of `ck_config_load_file` in c/config/ck_config.c, up to
-- the search for the directive.
pub mod Bounds
use ckarta.Prelude.{
  ℕ, zero, suc, Bool, true, false, not, ◌&&◌, ◌||◌, List, [], ◌∷◌, ◌++◌, leb, ◌==◌, if◌then◌else◌,
  Bytes,
}
use ckarta.Config.{
  Message, no_blocks, missing_semicolon, too_many_arguments, unexpected_characters, line_size,
  max_args,
}
use ckarta.Config.Tokens.{Token, token, failed, nothing, parse_token, is_space}

unfoldable pub skip_spaces : Bytes → Bytes
skip_spaces [] = []
skip_spaces (c ∷ p) = elim (is_space c) [ true ↦ skip_spaces p | false ↦ c ∷ p ]

-- The arguments up to the semicolon and what is behind it, an error, or the -1 of an empty token.
pub data Arguments : Type 0 where
  arguments : List Bytes → Bytes → Arguments
  refused : Message → Arguments
  refused_silently : Arguments

-- What comes between two arguments: the end of the loop, or an argument more.
pub data Turn : Type 0 where
  over : Arguments → Turn
  one_more : Bytes → Turn

abbrev pub turn_at : List Bytes → Bytes → Turn
turn_at args [] = over (refused missing_semicolon)
turn_at args (c ∷ p) =
    if c == 35
    then over (refused missing_semicolon)
    else if c == 59
    then over (arguments args p)
    else one_more (c ∷ p)

abbrev pub turn : List Bytes → Bytes → Turn
turn args input = turn_at args (skip_spaces input)

abbrev pub without_room : Turn → Arguments
without_room (over a) = a
without_room (one_more p) = refused too_many_arguments

-- The loop over the arguments, with the number of them that there is still room for.
unfoldable pub parse_arguments : ℕ → List Bytes → Bytes → Arguments
parse_arguments zero args input = without_room (turn args input)
parse_arguments (suc room) args input = elim (turn args input) [
  | over a ↦ a
  | one_more p ↦ elim (parse_token line_size p) [
    | token t rest ↦ parse_arguments room (args ++ t ∷ []) rest
    | failed m ↦ refused m
    | nothing ↦ refused_silently
  ]
]

-- A line: nothing, a directive with its arguments, or an error.
pub data Line : Type 0 where
  blank : Line
  directive : Bytes → List Bytes → Line
  bad : Message → Line
  bad_silently : Line

abbrev pub is_end : Bytes → Bool
is_end [] = true
is_end (c ∷ p) = c == 35

unfoldable pub behind_arguments : Bytes → Arguments → Line
behind_arguments name (arguments args rest) =
    if is_end (skip_spaces rest) then directive name args else bad unexpected_characters
behind_arguments name (refused m) = bad m
behind_arguments name refused_silently = bad_silently

unfoldable pub behind_name : Token → Line
behind_name (token name rest) = behind_arguments name (parse_arguments max_args [] rest)
behind_name (failed m) = bad m
behind_name nothing = bad_silently

abbrev pub is_brace : Bytes → Bool
is_brace [] = false
is_brace (c ∷ p) = c == 123 || c == 125

unfoldable pub parse_line : Bytes → Line
parse_line text =
    let p = skip_spaces text in
    if is_end p
    then blank
    else if is_brace p
    then bad no_blocks
    else behind_name (parse_token line_size p)
