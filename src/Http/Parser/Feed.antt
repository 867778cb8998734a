-- ===== src/Http/Parser/Feed.antt =====
-- `ck_http_parser_feed`: the buffer, and the byte loop that looks for the end of the head.
pub mod Rounds
pub mod Bounds
pub mod Fragments
use ckarta.Prelude.{
  ℕ, ◌+◌, ◌-◌, Bool, true, false, ◌&&◌, [], ◌∷◌, ◌++◌, Bytes, Option, none, some, leb, ◌==◌,
  if◌then◌else◌, length, get_or,
}
use ckarta.Http.Parser.{
  Result, incomplete, complete, bad_request, header_too_large, Request, max_header_bytes,
}
use ckarta.Http.Parser.Block.{
  Checked, accepted, refused, out_of_fuel, result_of, parse_header_block,
}

-- `buffer` is the used prefix `buffer[0 .. length)`.
pub record Parser : Type 0 where
  pub buffer : Bytes
  pub is_complete : Bool

unfoldable pub init : Parser
init = record { buffer = []; is_complete = false }

-- What `feed` returns, and what it stores; `request` is given where a head was completed.
pub record Fed : Type 0 where
  pub result : Result
  pub parser : Parser
  pub consumed : ℕ
  pub request : Option Request

abbrev pub leave : Result → Parser → ℕ → Fed
leave r p n = record { result = r; parser = p; consumed = n; request = none }

-- The last four bytes are CR LF CR LF.
pub ends_head : Bytes → Bool
ends_head b =
    let n = length b in
    leb 4 n
    && get_or b (n - 4) 0 == b'\r'
    && get_or b (n - 3) 0 == b'\n'
    && get_or b (n - 2) 0 == b'\r'
    && get_or b (n - 1) 0 == b'\n'

-- `parse_header_block` never runs out of fuel (Block/Fuel).
pub finish_head : Parser → ℕ → Fed
finish_head p position = elim (parse_header_block p.buffer) [
  | accepted q ↦ record {
    result = complete;
    parser = record p { is_complete = true };
    consumed = position;
    request = some q;
  }
  | refused r ↦ leave (result_of r) p position
  | out_of_fuel ↦ leave bad_request p position
]

pub feed_from : Parser → ℕ → Bytes → Fed
feed_from p position [] = leave incomplete p position
feed_from p position (c ∷ rest) =
    let p' = record p { buffer = p.buffer ++ c ∷ [] } in
    elim (leb max_header_bytes (length p.buffer)) [
      | true ↦ leave header_too_large p 0
      | false ↦ elim (ends_head p'.buffer) [
        | true ↦ finish_head p' (position + 1)
        | false ↦ feed_from p' (position + 1) rest
      ]
    ]

unfoldable pub feed : Parser → Bytes → Fed
unfolding feed_from ends_head finish_head
feed p source = if p.is_complete then leave complete p 0 else feed_from p 0 source
