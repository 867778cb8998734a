-- ===== src/Config/Load/Startup.antt =====
-- The start of c/core/main.c: its arguments, its directive, and the way to a configuration.
pub mod Dumps
pub mod Ends
use ckarta.Prelude.{
  ℕ, ◌+◌, Bool, true, false, not, ◌&&◌, ◌||◌, List, [], ◌∷◌, ◌++◌, Option, none, some, ◌==◌,
  if◌then◌else◌, length, Bytes,
}
use ckarta.Config.{
  Config, Done, Message, Failure, bare, at_line, silent, one_value, init, set_class_path, dump,
  destroy,
}
use ckarta.Config.Load.{Directive, same_text, Loaded, loaded, out_of_fuel, load_file}

-- The arguments of the program.
pub record Options : Type 0 where
  pub config_path : Bytes
  pub test_only : Bool
  pub dump_config : Bool

pub data Parsed : Type 0 where
  proceed help wrong : Parsed

pub data OptionName : Type 0 where
  option_c option_t option_dump option_help unknown : OptionName

-- `-c`, `-t`, `-T`, `-h`, `--help`.
abbrev pub option_of : Bytes → OptionName
option_of a =
    if same_text a (45 ∷ 99 ∷ [])
    then option_c
    else if same_text a (45 ∷ 116 ∷ [])
    then option_t
    else if same_text a (45 ∷ 84 ∷ [])
    then option_dump
    else if same_text a (45 ∷ 104 ∷ []) || same_text a (45 ∷ 45 ∷ 104 ∷ 101 ∷ 108 ∷ 112 ∷ [])
    then option_help
    else unknown

abbrev tests : Options → Options
tests o = record o { test_only = true }

abbrev dumps : Options → Options
dumps o = record o { test_only = true; dump_config = true }

unfoldable pub parse_options : Options → List Bytes → Options × Parsed
parse_options o [] = (o, proceed)
parse_options o (a ∷ []) = elim (option_of a) [
  | option_c ↦ (o, wrong)
  | option_t ↦ (tests o, proceed)
  | option_dump ↦ (dumps o, proceed)
  | option_help ↦ (o, help)
  | unknown ↦ (o, wrong)
]
parse_options o (a ∷ b ∷ rest) = elim (option_of a) [
  | option_c ↦ parse_options (record o { config_path = b }) rest
  | option_t ↦ parse_options (tests o) (b ∷ rest)
  | option_dump ↦ parse_options (dumps o) (b ∷ rest)
  | option_help ↦ (o, help)
  | unknown ↦ (o, wrong)
]

-- The text of an error behind the number of the line.
abbrev pub with_line : ℕ → Failure → Failure
with_line line (bare m) = at_line line m
with_line line (at_line l m) = at_line line m
with_line line silent = silent

abbrev pub name_line : ℕ → Done → Done
name_line line d = elim d.failure [
  | none ↦ d
  | some f ↦ record d { failure = some (with_line line f) }
]

unfoldable pub apply_class_path : Bool → Config → List Bytes → ℕ → Done
apply_class_path memory c [] line = record { config = c; failure = some (at_line line one_value) }
apply_class_path memory c (value ∷ []) line = name_line line (set_class_path memory c value)
apply_class_path memory c (value ∷ more ∷ args) line = record {
  config = c;
  failure = some (at_line line one_value);
}

-- `class_path`.
abbrev pub class_path_name : Bytes
class_path_name = 99 ∷ 108 ∷ 97 ∷ 115 ∷ 115 ∷ 95 ∷ 112 ∷ 97 ∷ 116 ∷ 104 ∷ []

abbrev pub directives_of : Bool → List Directive
directives_of memory =
    record { name = class_path_name; handler = some (apply_class_path memory) } ∷ []

-- How the start ends: with a text and a status, or by going on to the server.
pub data Start : Type 0 where
  usage : Bool → Start
  no_memory : Start
  config_error : Failure → Start
  dumped : Bytes → Start
  dump_error : Start
  config_ok : Start
  serves : Config → Start
  stuck : Start

abbrev after_config : Options → Config → Start
after_config o c =
    if o.dump_config
    then elim (dump c) [ none ↦ dump_error | some text ↦ dumped text ]
    else if o.test_only
    then config_ok
    else serves c

abbrev after_load : Options → Loaded → Start
after_load o out_of_fuel = stuck
after_load o (loaded d) = elim d.failure [
  | none ↦ after_config o d.config
  | some f ↦ config_error f
]

-- The two answers of `malloc`, for the default path and for that of the file; the file system and
-- whether reading fails are parameters.
abbrev after_options :
    Bool → Bool → Bool → (Bytes → Option Bytes) → Config → Options × Parsed → Start
after_options first memory error files zeros (o, help) = usage true
after_options first memory error files zeros (o, wrong) = usage false
after_options first memory error files zeros (o, proceed) = elim (init first zeros) [
  | none ↦ no_memory
  | some c ↦ after_load o (load_file error (directives_of memory) c (files o.config_path))
]

-- `conf/ckarta.conf`.
abbrev pub default_options : Options
default_options = record {
  config_path =
      99 ∷ 111 ∷ 110 ∷ 102 ∷ 47 ∷ 99 ∷ 107 ∷ 97 ∷ 114 ∷ 116 ∷ 97 ∷ 46 ∷ 99 ∷ 111 ∷ 110 ∷ 102 ∷ [];
  test_only = false;
  dump_config = false;
}

unfoldable pub start : Bool → Bool → Bool → (Bytes → Option Bytes) → List Bytes → Start
unfolding parse_options
start first memory error files argv =
    after_options first memory error files
      (record { class_path = none; class_path_configured = false })
      (parse_options default_options argv)
