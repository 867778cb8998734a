-- ===== src/Http/Parser/Framing.antt =====
-- `parse_content_length_headers`, `parse_transfer_encoding_headers`, `parse_connection_headers`.
pub mod Declared
pub mod Items
pub mod Lists
use ckarta.Prelude.{
  ℕ, Bool, true, false, not, List, [], ◌∷◌, Bytes, Option, none, some, ◌==◌, if◌then◌else◌,
}
use ckarta.Http.Bytes.{codes, is_empty}
use ckarta.Http.Parser.{Header, Request, span_equal_ci, skip_ows, trim_ows, parse_uint64}

abbrev cons_first : ℕ → List Bytes → List Bytes
cons_first c [] = (c ∷ []) ∷ []
cons_first c (item ∷ items) = (c ∷ item) ∷ items

-- The stretches between commas that the `while` loops of a header value visit, in order: the loop
-- ends at the end of the value, so that nothing behind a last comma is visited.
pub list_items : Bytes → List Bytes
list_items [] = []
list_items (c ∷ cs) = if c == b',' then [] ∷ list_items cs else cons_first c (list_items cs)

abbrev pub content_length_name : Bytes
content_length_name = codes "Content-Length"

abbrev pub transfer_encoding_name : Bytes
transfer_encoding_name = codes "Transfer-Encoding"

abbrev pub connection_name : Bytes
connection_name = codes "Connection"

-- The loop over one value; `seen` is `canonical` where `found` is set, and `none` without it.
pub content_length_items : Option ℕ → List Bytes → Option (Option ℕ)
content_length_items seen [] = some seen
content_length_items seen (item ∷ items) = elim (parse_uint64 (trim_ows item)) [
  | none ↦ none
  | some parsed ↦ elim seen [
    | none ↦ content_length_items (some parsed) items
    | some canonical ↦ elim (canonical == parsed) [
      | true ↦ content_length_items (some canonical) items
      | false ↦ none
    ]
  ]
]

pub content_length_from : Option ℕ → List Header → Option (Option ℕ)
unfolding list_items content_length_items
content_length_from seen [] = some seen
content_length_from seen (h ∷ headers) = elim (span_equal_ci h.name content_length_name) [
  | false ↦ content_length_from seen headers
  | true ↦ elim (content_length_items seen (list_items h.value)) [
    | none ↦ none
    | some now ↦ content_length_from now headers
  ]
]

-- `none`: the headers are refused. `some none`: there is no length. `some (some n)`: it is `n`.
unfoldable pub parse_content_length_headers : List Header → Option (Option ℕ)
unfolding content_length_from
parse_content_length_headers headers = content_length_from none headers

-- An item that is blank is refused; `chunked` is set by the last item that was read.
pub transfer_encoding_items : Bool → List Bytes → Option Bool
transfer_encoding_items chunked [] = some chunked
transfer_encoding_items chunked (item ∷ items) = elim (is_empty (skip_ows item)) [
  | true ↦ none
  | false ↦ elim (span_equal_ci (trim_ows item) (codes "chunked")) [
    | true ↦ transfer_encoding_items true items
    | false ↦ none
  ]
]

-- What the headers say of the transfer coding: `found` and `chunked`.
pub record TransferEncoding : Type 0 where
  pub present : Bool
  pub is_chunked : Bool

pub transfer_encoding_from : TransferEncoding → List Header → Option TransferEncoding
unfolding list_items transfer_encoding_items
transfer_encoding_from t [] = some t
transfer_encoding_from t (h ∷ headers) = elim (span_equal_ci h.name transfer_encoding_name) [
  | false ↦ transfer_encoding_from t headers
  | true ↦ elim (transfer_encoding_items t.is_chunked (list_items h.value)) [
    | none ↦ none
    | some c ↦ transfer_encoding_from (record { present = true; is_chunked = c }) headers
  ]
]

unfoldable pub parse_transfer_encoding_headers : List Header → Option TransferEncoding
unfolding transfer_encoding_from
parse_transfer_encoding_headers headers =
    transfer_encoding_from (record { present = false; is_chunked = false }) headers

pub connection_items : Bool → List Bytes → Option Bool
connection_items close [] = some close
connection_items close (item ∷ items) = elim (is_empty (skip_ows item)) [
  | true ↦ none
  | false ↦
      connection_items (if span_equal_ci (trim_ows item) (codes "close") then true else close) items
]

pub connection_from : Bool → List Header → Option Bool
unfolding list_items connection_items
connection_from close [] = some close
connection_from close (h ∷ headers) = elim (span_equal_ci h.name connection_name) [
  | false ↦ connection_from close headers
  | true ↦ elim (connection_items close (list_items h.value)) [
    | none ↦ none
    | some c ↦ connection_from c headers
  ]
]

unfoldable pub parse_connection_headers : List Header → Option Bool
unfolding connection_from
parse_connection_headers headers = connection_from false headers
