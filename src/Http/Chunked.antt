-- ===== src/Http/Chunked.antt =====
-- The incremental decoder of c/http/ck_http_chunked.c: its state, its line grammar and `feed`.
-- `line` is the used prefix `line[0 .. line_length)` of the fixed array. An input is the list of
-- its bytes; the pointer that `feed` hands out through `body_data` is the offset into that input.
pub mod Feed
pub mod Size
use ckarta.Prelude.{
  ℕ, ◌+◌, ◌-◌, ◌*◌, ◌/◌, ◌%◌, ◌^◌, Bool, true, false, not, ◌&&◌, ◌||◌, List, [], ◌∷◌, ◌++◌, Bytes,
  Option, none, some, ltb, leb, ◌==◌, if◌then◌else◌, length, all, uint64_max, add64, sub64,
}
use ckarta.Http.Bytes.{is_digit, is_tchar, is_empty, split_colon}

abbrev pub max_line : ℕ
max_line = 8192

abbrev pub max_trailers : ℕ
max_trailers = 64

abbrev pub max_trailer_bytes : ℕ
max_trailer_bytes = 16384

abbrev pub max_body : ℕ
max_body = uint64_max

pub data Result : Type 0 where
  incomplete body complete bad_request too_large : Result

pub data State : Type 0 where
  size chunk chunk_crlf trailers done : State

pub record Decoder : Type 0 where
  pub state : State
  pub chunk_remaining : ℕ
  pub total_decoded : ℕ
  pub line : Bytes
  pub trailer_bytes : ℕ
  pub trailer_count : ℕ

-- `none` is the -1 of a byte that is no hexadecimal digit.
unfoldable pub hex_value : ℕ → Option ℕ
hex_value value =
    if is_digit value
    then some (value - b'0')
    else if leb b'A' value && leb value b'F'
    then some (value - b'A' + 10)
    else if leb b'a' value && leb value b'f'
    then some (value - b'a' + 10)
    else none

-- `none`: the line is full, one byte short of the array for the NUL of `finish_line`.
unfoldable pub append_line_byte : Decoder → ℕ → Option Decoder
append_line_byte d value =
    if leb (max_line - 1) (length d.line)
    then none
    else some (record d { line = d.line ++ value ∷ [] })

-- The bytes of a chunk extension, behind its first `;`.
pub valid_extension : Bytes → Bool
valid_extension = all λ c. not (c == 0x7f || ltb c 0x20 && not (c == b'\t'))

-- One round of the digit loop of `parse_chunk_size`: the new value, if the digit does not overflow.
unfoldable pub next_size : ℕ → ℕ → Option ℕ
next_size value digit =
    if ltb ((uint64_max - digit) / 16) value then none else some (add64 (value * 16 % 2 ^ 64) digit)

-- The loop of `parse_chunk_size`, with its variables `digits` and `value`.
pub parse_size_from : Bool → ℕ → Bytes → Option ℕ
parse_size_from digits value [] = if digits then some value else none
parse_size_from digits value (c ∷ cs) =
    if c == b';'
    then if digits && valid_extension cs then some value else none
    else elim (hex_value c) [
      | none ↦ none
      | some digit ↦ elim (next_size value digit) [
        | none ↦ none
        | some v ↦ parse_size_from true v cs
      ]
    ]

unfoldable pub parse_chunk_size : Bytes → Option ℕ
unfolding parse_size_from
parse_chunk_size line = parse_size_from false 0 line

pub is_trailer_value_byte : ℕ → Bool
is_trailer_value_byte v = not (v == 0x7f || ltb v 0x20 && not (v == b' ') && not (v == b'\t'))

unfoldable pub valid_trailer_field : Bytes → Bool
unfolding split_colon
valid_trailer_field line = elim (split_colon line) [
  | none ↦ false
  | some (name, value) ↦ not (is_empty name) && all is_tchar name && all is_trailer_value_byte value
]

unfoldable pub init : Decoder
init = record {
  state = size;
  chunk_remaining = 0;
  total_decoded = 0;
  line = [];
  trailer_bytes = 0;
  trailer_count = 0;
}
