-- ===== src/Http/Parser/Block/Fuel.antt =====
-- The header loop of `parse_header_block` ends: its fuel is enough.
use ckarta.Prelude.{
  ℕ, zero, suc, ◌<◌, ◌≡◌, ◌≢◌, refl, List, [], ◌∷◌, ◌++◌, Bytes, length, arith, Option-cases, inl,
  inr,
}
use ckarta.Http.Parser.{Header, RequestLine, find_crlf, parse_request_line}
use ckarta.Http.Parser.Block.{
  Checked, accepted, refused, out_of_fuel, LineStep, block_end, line_refused, line_stored,
  header_line, next_line, behind_line, header_lines, behind_lines, frame, settle,
  parse_header_block,
}
use ckarta.Http.Parser.FindCrlf.{find_crlf-length}

frame-ends : (l : RequestLine) (headers : List Header) → frame l headers ≢ out_of_fuel
unfolding frame settle
frame-ends l headers = ground arith

header_line-after :
    (line after : Bytes) (h : Header) (left : Bytes)
    → header_line line after ≡ line_stored h left
    → left ≡ after
unfolding header_line
header_line-after line after h left e = ground arith

-- A round that goes on leaves fewer bytes.
pub next_line-shorter :
    (count : ℕ) (rest : Bytes) (h : Header) (left : Bytes)
    → next_line count rest ≡ line_stored h left
    → length left < length rest
unfolding next_line
next_line-shorter count rest h left e = elim (Option-cases (find_crlf rest)) [
  | inl q ↦ ground arith
  | inr ((line, after), q) ↦
      ground (arith, find_crlf-length rest line after q, header_line-after line after h left)
]

behind_line-ends :
    (step : LineStep) (headers : List Header) (next : Header → Bytes → Checked (List Header))
    → ((h : Header) (after : Bytes) → step ≡ line_stored h after → next h after ≢ out_of_fuel)
    → behind_line step headers next ≢ out_of_fuel
unfolding behind_line
behind_line-ends block_end headers next ends e = cc
behind_line-ends (line_refused r) headers next ends e = cc
behind_line-ends (line_stored h after) headers next ends e = ends h after refl e

header_lines-ends :
    (fuel : ℕ) (headers : List Header) (rest : Bytes)
    → length rest < fuel
    → header_lines fuel headers rest ≢ out_of_fuel
unfolding header_lines
header_lines-ends zero headers rest h = elim h [ ]
header_lines-ends (suc fuel) headers rest h =
    behind_line-ends (next_line (length headers) rest) headers _ λ g after e.
      header_lines-ends fuel (headers ++ g ∷ []) after
        (omega (arith, next_line-shorter (length headers) rest g after e))

behind_lines-ends :
    (line : RequestLine) (c : Checked (List Header))
    → c ≢ out_of_fuel
    → behind_lines line c ≢ out_of_fuel
unfolding behind_lines
behind_lines-ends line (accepted headers) h = frame-ends line headers
behind_lines-ends line (refused r) h = λ e. cc
behind_lines-ends line out_of_fuel h = absurd (h refl)

-- However long the block, `parse_header_block` comes to a verdict of the code: its loop ends within
-- the fuel that the model gives it.
pub parse_header_block-ends : (buffer : Bytes) → parse_header_block buffer ≢ out_of_fuel
unfolding parse_header_block
parse_header_block-ends buffer = elim (Option-cases (find_crlf buffer)) [
  | inl e ↦ ground arith
  | inr ((first, rest), e) ↦ elim (Option-cases (parse_request_line first)) [
    | inl q ↦ ground arith
    | inr (line, q) ↦ ground (
      arith,
      behind_lines-ends line (header_lines (suc (length rest)) [] rest)
          (header_lines-ends (suc (length rest)) [] rest (omega arith)),
    )
  ]
]
