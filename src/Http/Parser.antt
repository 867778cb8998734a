-- ===== src/Http/Parser.antt =====
-- The request-head parser of c/http/ck_http_parser.c: spans, the request line, the header lines and
-- the three framing headers. `Block` puts them together and `Feed` buffers the input.
pub mod Framing
pub mod Block
pub mod Feed
pub mod Numbers
pub mod FindCrlf
use ckarta.Prelude.{
  ℕ, zero, suc, ◌+◌, ◌-◌, ◌*◌, ◌/◌, ◌%◌, ◌^◌, Bool, true, false, not, ◌&&◌, ◌||◌, List, [], ◌∷◌,
  ◌++◌, Bytes, Option, none, some, ltb, leb, ◌==◌, if◌then◌else◌, length, all, uint64_max, add64,
}
use ckarta.Http.Bytes.{codes, is_digit, is_tchar, is_empty, bytes_eq, break, split_colon}

abbrev pub max_headers : ℕ
max_headers = 128

abbrev pub max_header_bytes : ℕ
max_header_bytes = 32768

abbrev pub max_method_bytes : ℕ
max_method_bytes = 32

abbrev pub max_target_bytes : ℕ
max_target_bytes = 8192

abbrev pub max_header_name_bytes : ℕ
max_header_name_bytes = 256

abbrev pub max_header_value_bytes : ℕ
max_header_value_bytes = 16384

pub data Result : Type 0 where
  incomplete complete bad_request header_too_large : Result

pub data BodyMode : Type 0 where
  no_body content_length chunked : BodyMode

pub record Header : Type 0 where
  pub name : Bytes
  pub value : Bytes

-- `header_count` is the length of `headers`.
pub record Request : Type 0 where
  pub method : Bytes
  pub target : Bytes
  pub version : Bytes
  pub headers : List Header
  pub body_mode : BodyMode
  pub body_bytes : ℕ
  pub connection_close_required : Bool

abbrev pub is_ows : ℕ → Bool
is_ows c = c == b' ' || c == b'\t'

-- `tolower` of the C locale.
pub to_lower : ℕ → ℕ
to_lower c = if leb b'A' c && leb c b'Z' then c + 32 else c

unfoldable pub span_equal_ci : Bytes → Bytes → Bool
unfolding to_lower
span_equal_ci [] [] = true
span_equal_ci [] (b ∷ literal) = false
span_equal_ci (a ∷ span) [] = false
span_equal_ci (a ∷ span) (b ∷ literal) = to_lower a == to_lower b && span_equal_ci span literal

-- The two loops of `trim_ows`.
unfoldable pub skip_ows : Bytes → Bytes
skip_ows [] = []
skip_ows (c ∷ cs) = let rest = skip_ows cs in if is_ows c then rest else c ∷ cs

pub drop_end_ows : Bytes → Bytes
drop_end_ows [] = []
drop_end_ows (c ∷ cs) =
    let rest = drop_end_ows cs in if is_ows c && is_empty rest then [] else c ∷ rest

unfoldable pub trim_ows : Bytes → Bytes
unfolding skip_ows drop_end_ows
trim_ows span = drop_end_ows (skip_ows span)

-- One round of the loop of `parse_uint64`: the new value, if the digit does not overflow.
pub next_decimal : ℕ → ℕ → Option ℕ
next_decimal value digit =
    if ltb ((uint64_max - digit) / 10) value then none else some (add64 (value * 10 % 2 ^ 64) digit)

pub uint64_from : ℕ → Bytes → Option ℕ
uint64_from value [] = some value
uint64_from value (c ∷ cs) =
    if not (is_digit c)
    then none
    else elim (next_decimal value (c - b'0')) [ none ↦ none | some v ↦ uint64_from v cs ]

unfoldable pub parse_uint64 : Bytes → Option ℕ
unfolding uint64_from next_decimal
parse_uint64 span = if is_empty span then none else uint64_from 0 span

-- The line in front of the first CR LF, and what stands behind that.
unfoldable pub find_crlf : Bytes → Option (Bytes × Bytes)
find_crlf [] = none
find_crlf (a ∷ []) = none
find_crlf (a ∷ b ∷ rest) =
    let later = find_crlf (b ∷ rest) in
    if a == b'\r' && b == b'\n'
    then some ([], rest)
    else elim later [ none ↦ none | some (line, after) ↦ some (a ∷ line, after) ]

pub record RequestLine : Type 0 where
  pub method : Bytes
  pub target : Bytes
  pub version : Bytes

pub is_target_byte : ℕ → Bool
is_target_byte value = not (leb value 0x20 || value == 0x7f)

abbrev pub http_version : Bytes
http_version = codes "HTTP/1.1"

-- The checks on the method and on what follows it, on the target, and on the version.
pub method_valid : Bytes → Bytes → Bool
method_valid method rest =
    not (is_empty method || ltb max_method_bytes (length method) || is_empty rest)
    && all is_tchar method

pub target_valid : Bytes → Bool
unfolding is_target_byte
target_valid target =
    not (is_empty target || ltb max_target_bytes (length target)) && all is_target_byte target

unfoldable pub parse_request_line : Bytes → Option RequestLine
unfolding skip_ows method_valid target_valid
parse_request_line line =
    let (method, behind_method) = break is_ows line in
    let (target, behind_target) = break is_ows (skip_ows behind_method) in
    let version = skip_ows behind_target in
    if method_valid method behind_method && target_valid target && bytes_eq version http_version
    then some (record { method = method; target = target; version = version })
    else none
