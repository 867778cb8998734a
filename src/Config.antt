-- ===== src/Config.antt =====
-- The configuration of c/config/ck_config.c: the configuration itself, its tokens, and what the
-- directives of a file may do to it. A string is the list of its bytes before the NUL.
pub mod Tokens
pub mod Line
pub mod Load
use ckarta.Prelude.{
  ℕ, zero, suc, ◌+◌, Bool, true, false, not, ◌&&◌, ◌||◌, List, [], ◌∷◌, ◌++◌, Option, none, some,
  leb, ◌==◌, if◌then◌else◌, length, Bytes,
}

abbrev pub line_size : ℕ
line_size = 4096

abbrev pub max_args : ℕ
max_args = 8

-- The texts of the errors.
pub data Message : Type 0 where
  empty_value duplicate out_of_memory cannot_open unterminated_escape unsupported_escape
        token_too_long unterminated_string line_too_long no_blocks missing_semicolon
        too_many_arguments unexpected_characters unknown_directive one_value read_error :
      Message

-- What a failing call leaves in the buffer for the error: a text, one with the number of a line, or
-- what was there before.
pub data Failure : Type 0 where
  bare : Message → Failure
  at_line : ℕ → Message → Failure
  silent : Failure

pub record Config : Type 0 where
  pub class_path : Option Bytes
  pub class_path_configured : Bool

-- What a call leaves: the configuration, and how it failed if it did.
pub record Done : Type 0 where
  pub config : Config
  pub failure : Option Failure

-- `build/classes`.
abbrev pub default_class_path : Bytes
default_class_path = (98 ∷ 117 ∷ 105 ∷ 108 ∷ 100 ∷ 47 ∷ 99 ∷ 108 ∷ 97 ∷ 115 ∷ 115 ∷ 101 ∷ 115 ∷ [])

-- `memory` is whether `malloc` gives a block.
unfoldable pub init : Bool → Config → Option Config
init memory c =
    if memory
    then some (record { class_path = some default_class_path; class_path_configured = false })
    else none

unfoldable pub set_class_path : Bool → Config → Bytes → Done
set_class_path memory c value =
    if length value == 0
    then record { config = c; failure = some (bare empty_value) }
    else if c.class_path_configured
    then record { config = c; failure = some (bare duplicate) }
    else if not memory
    then record { config = c; failure = some (bare out_of_memory) }
    else record {
      config = record { class_path = some value; class_path_configured = true };
      failure = none;
    }

pub destroy : Config → Config
destroy c = record { class_path = none; class_path_configured = false }

-- `class_path "`, what stands behind the path, and the two around it.
abbrev pub dump_head : Bytes
dump_head = (99 ∷ 108 ∷ 97 ∷ 115 ∷ 115 ∷ 95 ∷ 112 ∷ 97 ∷ 116 ∷ 104 ∷ 32 ∷ 34 ∷ [])

abbrev pub dump_tail : Bytes
dump_tail = (34 ∷ 59 ∷ 10 ∷ [])

-- What `dump` prints; `none` is its -1.
unfoldable pub dump : Config → Option Bytes
dump c = elim c.class_path [ none ↦ none | some path ↦ some (dump_head ++ path ++ dump_tail) ]
