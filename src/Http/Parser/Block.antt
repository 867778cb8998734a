-- ===== src/Http/Parser/Block.antt =====
-- `parse_header_block`: the header lines and the body mode that they settle.
pub mod Fuel
pub mod Form
pub mod WellFormed
pub mod Framed
use ckarta.Prelude.{
  ℕ, zero, suc, ◌+◌, ◌-◌, Bool, true, false, not, ◌&&◌, ◌||◌, List, [], ◌∷◌, ◌++◌, Bytes, Option,
  none, some, ltb, leb, ◌==◌, if◌then◌else◌, length, all,
}
use ckarta.Http.Bytes.{is_tchar, is_empty, split_colon}
use ckarta.Http.Parser.{
  Result, complete, bad_request, header_too_large, BodyMode, no_body, content_length, chunked,
  Header, Request, RequestLine, max_headers, max_header_name_bytes, max_header_value_bytes,
  trim_ows, find_crlf, parse_request_line,
}
use ckarta.Http.Parser.Framing.{
  TransferEncoding, parse_content_length_headers, parse_transfer_encoding_headers,
  parse_connection_headers,
}

-- The two results with which the code refuses a block.
pub data Refusal : Type 0 where
  bad large : Refusal

abbrev pub result_of : Refusal → Result
result_of bad = bad_request
result_of large = header_too_large

-- The verdict on a block. `out_of_fuel` is the model's own; it does not occur (Block/Fuel).
pub data Checked {ℓ} (A : Type ℓ) : Type ℓ where
  accepted : A → Checked A
  refused : Refusal → Checked A
  out_of_fuel : Checked A

-- What one round of the loop over the header lines does: end, return an error, or store a header
-- and go on with the bytes behind its line.
pub data LineStep : Type 0 where
  block_end : LineStep
  line_refused : Refusal → LineStep
  line_stored : Header → Bytes → LineStep

pub name_valid : Bytes → Bool
name_valid name =
    not (is_empty name || ltb max_header_name_bytes (length name)) && all is_tchar name

-- The part of a round from the search for the colon on.
pub header_line : Bytes → Bytes → LineStep
unfolding name_valid
header_line line after = elim (split_colon line) [
  | none ↦ line_refused bad
  | some (name, raw) ↦
      let value = trim_ows raw in
      if not (name_valid name)
      then line_refused bad
      else if ltb max_header_value_bytes (length value)
      then line_refused large
      else line_stored (record { name = name; value = value }) after
]

-- One round, with `header_count` and the bytes behind the last line read.
pub next_line : ℕ → Bytes → LineStep
unfolding header_line
next_line header_count rest =
    if not (ltb 2 (length rest)) then block_end else elim (find_crlf rest) [
      | none ↦ line_refused bad
      | some (line, after) ↦
          if is_empty line
          then block_end
          else if leb max_headers header_count
          then line_refused large
          else header_line line after
    ]

-- What follows a round: the end of the loop, or its next round.
pub behind_line :
    LineStep → List Header → (Header → Bytes → Checked (List Header)) → Checked (List Header)
behind_line block_end headers next = accepted headers
behind_line (line_refused r) headers next = refused r
behind_line (line_stored h after) headers next = next h after

-- The loop; `headers` are those stored. Each round takes two bytes at least, so that as much fuel
-- as there are bytes, and one, is enough.
unfoldable pub header_lines : ℕ → List Header → Bytes → Checked (List Header)
unfolding next_line behind_line
header_lines zero headers rest = out_of_fuel
header_lines (suc fuel) headers rest =
    behind_line (next_line (length headers) rest) headers
      (λ h after. header_lines fuel (headers ++ h ∷ []) after)

-- The last part: `close` is the verdict of the Connection headers.
pub settle : RequestLine → List Header → Option ℕ → TransferEncoding → Bool → Checked Request
settle line headers length_given coding close =
    if coding.present
    then (if not coding.is_chunked
        then refused bad
        else accepted (record {
          method = line.method;
          target = line.target;
          version = line.version;
          headers = headers;
          body_mode = chunked;
          body_bytes = 0;
          connection_close_required = true;
        }))
    else elim length_given [
      | some n ↦ accepted (record {
        method = line.method;
        target = line.target;
        version = line.version;
        headers = headers;
        body_mode = content_length;
        body_bytes = n;
        connection_close_required = close;
      })
      | none ↦ accepted (record {
        method = line.method;
        target = line.target;
        version = line.version;
        headers = headers;
        body_mode = no_body;
        body_bytes = 0;
        connection_close_required = close;
      })
    ]

-- The verdicts of the three framing headers, in the order in which the code asks for them.
pub frame_parts :
    RequestLine
    → List Header
    → Option (Option ℕ)
    → Option TransferEncoding
    → Option Bool
    → Checked Request
unfolding settle
frame_parts line headers none coding close = refused bad
frame_parts line headers (some given) none close = refused bad
frame_parts line headers (some given) (some coding) none = refused bad
frame_parts line headers (some given) (some coding) (some close) =
    settle line headers given coding close

pub frame : RequestLine → List Header → Checked Request
unfolding frame_parts
frame line headers =
    frame_parts line headers (parse_content_length_headers headers)
      (parse_transfer_encoding_headers headers) (parse_connection_headers headers)

pub behind_lines : RequestLine → Checked (List Header) → Checked Request
unfolding frame
behind_lines line (accepted headers) = frame line headers
behind_lines line (refused r) = refused r
behind_lines line out_of_fuel = out_of_fuel

unfoldable pub parse_header_block : Bytes → Checked Request
unfolding header_lines behind_lines
parse_header_block buffer = elim (find_crlf buffer) [
  | none ↦ refused bad
  | some (first, rest) ↦ elim (parse_request_line first) [
    | none ↦ refused bad
    | some line ↦ behind_lines line (header_lines (suc (length rest)) [] rest)
  ]
]
