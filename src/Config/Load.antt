-- ===== src/Config/Load.antt =====
-- `ck_config_load_file` of c/config/ck_config.c: the lines as `fgets` reads them, the search for a
-- directive and the call of its handler. The file is the bytes of it that can be read.
pub mod Runs
pub mod Startup
use ckarta.Prelude.{
  ℕ, zero, suc, ◌+◌, ◌-◌, Bool, true, false, not, ◌&&◌, ◌||◌, List, [], ◌∷◌, ◌++◌, Option, none,
  some, ◌==◌, if◌then◌else◌, length, Bytes,
}
use ckarta.Config.{
  Config, Done, Message, Failure, bare, at_line, silent, cannot_open, line_too_long,
  unknown_directive, read_error, line_size,
}
use ckarta.Config.Line.{Line, blank, directive, bad, bad_silently, parse_line}

-- `fgets`: what it puts into the buffer, what it leaves, and whether it has met the end of the file.
pub record Read : Type 0 where
  pub text : Bytes
  pub rest : Bytes
  pub at_end : Bool

abbrev put_back : ℕ → Read → Read
put_back c r = record r { text = c ∷ r.text }

unfoldable pub fgets : ℕ → Bytes → Read
fgets zero file = record { text = []; rest = file; at_end = false }
fgets (suc n) [] = record { text = []; rest = []; at_end = true }
fgets (suc n) (c ∷ file) = elim (c == 10) [
  | true ↦ record { text = c ∷ []; rest = file; at_end = false }
  | false ↦ put_back c (fgets n file)
]

-- A C string ends at its first NUL.
unfoldable pub until_nul : Bytes → Bytes
until_nul [] = []
until_nul (c ∷ text) = elim (c == 0) [ true ↦ [] | false ↦ c ∷ until_nul text ]

pub has_newline : Bytes → Bool
has_newline [] = false
has_newline (c ∷ text) = c == 10 || has_newline text

abbrev pub same_text : Bytes → Bytes → Bool
same_text [] [] = true
same_text [] (d ∷ ds) = false
same_text (c ∷ cs) [] = false
same_text (c ∷ cs) (d ∷ ds) = c == d && same_text cs ds

-- A handler gets the configuration, the arguments and the number of the line; NULL is `none`.
pub record Directive : Type 0 where
  pub name : Bytes
  pub handler : Option (Config → List Bytes → ℕ → Done)

unfoldable pub find_directive : List Directive → Bytes → Option Directive
find_directive [] name = none
find_directive (d ∷ directives) name = elim (same_text d.name name) [
  | true ↦ some d
  | false ↦ find_directive directives name
]

abbrev fail : Config → Failure → Done
fail c f = record { config = c; failure = some f }

abbrev pub call_handler : Config → ℕ → List Bytes → Option Directive → Done
call_handler c line args none = fail c (at_line line unknown_directive)
call_handler c line args (some d) = elim d.handler [
  | none ↦ fail c (at_line line unknown_directive)
  | some handler ↦ handler c args line
]

-- What a line does to the configuration.
unfoldable pub apply_line : List Directive → Config → ℕ → Line → Done
unfolding find_directive
apply_line directives c line blank = record { config = c; failure = none }
apply_line directives c line (directive name args) =
    call_handler c line args (find_directive directives name)
apply_line directives c line (bad m) = fail c (at_line line m)
apply_line directives c line bad_silently = fail c silent

-- The line that `fgets` has read, or the error for one that does not fit in the buffer.
unfoldable pub apply_read : List Directive → Config → ℕ → Read → Done
unfolding until_nul has_newline apply_line
apply_read directives c line r =
    let text = until_nul r.text in
    if not (has_newline text) && not r.at_end
    then fail c (at_line line line_too_long)
    else apply_line directives c line (parse_line text)

-- The result of a load; the loop has fuel, and `out_of_fuel` is no answer of the program.
pub data Loaded : Type 0 where
  loaded : Done → Loaded
  out_of_fuel : Loaded

-- What follows once `fgets` answers NULL.
abbrev pub at_eof : Bool → Config → ℕ → Done
at_eof error c line =
    if error then fail c (at_line line read_error) else record { config = c; failure = none }

unfoldable pub is_read : Read → Bool
is_read r = not (length r.text == 0)

unfoldable pub load_from : ℕ → Bool → List Directive → Config → ℕ → Bytes → Loaded
unfolding fgets apply_read is_read
load_from zero error directives c line file = out_of_fuel
load_from (suc fuel) error directives c line file =
    let r = fgets (line_size - 1) file in
    elim (is_read r) [
      | false ↦ loaded (at_eof error c line)
      | true ↦
          let d = apply_read directives c (line + 1) r in
          elim d.failure [
            | none ↦ load_from fuel error directives d.config (line + 1) r.rest
            | some f ↦ loaded d
          ]
    ]

-- What follows `fopen`; `none` is a file that it does not open.
unfoldable pub load_opened : Bool → List Directive → Config → Option Bytes → Loaded
unfolding load_from
load_opened error directives c none = loaded (fail c (bare cannot_open))
load_opened error directives c (some file) = load_from (length file + 1) error directives c 0 file

unfoldable pub load_file : Bool → List Directive → Config → Option Bytes → Loaded
unfolding load_opened
load_file error directives c file =
    if length directives == 0 then loaded (fail c silent) else load_opened error directives c file
