-- ===== src/Tests/Parser.antt =====
-- The request-head parser on a POST with a Content-Length, and on a chunked one.
use ckarta.Http.Bytes.Tchar.{in_token_ranges, is_tchar-ranges}
use ckarta.Prelude.{◌||◌, ◌==◌, ◌≡◌, ◌≢◌, refl, false, [], ◌∷◌, ◌++◌, Bytes, none, length, arith}
use ckarta.Http.Bytes.{codes, is_tchar, split_colon}
use ckarta.Http.Parser.{
  Request, content_length, incomplete, span_equal_ci, skip_ows, trim_ows, parse_uint64, find_crlf,
  parse_request_line,
}
use ckarta.Http.Parser.Framing.{
  parse_content_length_headers, parse_transfer_encoding_headers, parse_connection_headers,
}
use ckarta.Http.Parser.Framing.Declared.{Reads, parse_content_length_headers-Reads}
use ckarta.Http.Parser.Block.{accepted, out_of_fuel, parse_header_block}
use ckarta.Http.Parser.Block.Framed.{IsFramed, parse_header_block-IsFramed}
use ckarta.Http.Parser.Block.Form.{IsWellFormed}
use ckarta.Http.Parser.Block.WellFormed.{parse_header_block-IsWellFormed}
use ckarta.Http.Parser.Block.Fuel.{parse_header_block-ends}
use ckarta.Http.Parser.Feed.{Parser, feed}
use ckarta.Http.Parser.Feed.Bounds.{FedIsSafe, head_feed-FedIsSafe}
use ckarta.Http.Parser.Feed.Fragments.{head_feed-append, shift}

abbrev pub posted : Bytes
posted = codes "POST /a HTTP/1.1\r\nHost: x\r\nContent-Length: 5, 5\r\n\r\n"

abbrev pub posted_request : Request
posted_request = record {
  method = codes "POST";
  target = codes "/a";
  version = codes "HTTP/1.1";
  headers =
      record { name = codes "Host"; value = codes "x" }
      ∷ record { name = codes "Content-Length"; value = codes "5, 5" }
      ∷ [];
  body_mode = content_length;
  body_bytes = 5;
  connection_close_required = false;
}

pub parse-posted : parse_header_block posted ≡ accepted posted_request
unfolding parse_header_block find_crlf parse_request_line split_colon is_tchar skip_ows trim_ows
    span_equal_ci parse_uint64 parse_content_length_headers parse_transfer_encoding_headers
    parse_connection_headers
parse-posted = refl

parse_header_block-IsFramed_example : IsFramed posted_request
parse_header_block-IsFramed_example = parse_header_block-IsFramed posted posted_request parse-posted

parse_header_block-IsWellFormed_example : IsWellFormed posted_request
parse_header_block-IsWellFormed_example =
    parse_header_block-IsWellFormed posted posted_request parse-posted

parse_header_block-ends_example : parse_header_block posted ≢ out_of_fuel
parse_header_block-ends_example = parse_header_block-ends posted

parse_uint64_overflow : parse_uint64 (codes "18446744073709551616") ≡ none
unfolding parse_uint64
parse_uint64_overflow = refl

parse_content_length_headers-Reads_example :
    Reads posted_request.headers (parse_content_length_headers posted_request.headers)
parse_content_length_headers-Reads_example =
    parse_content_length_headers-Reads posted_request.headers

-- A parser that has read the start of a request line.
abbrev started : Parser
started = record { buffer = codes "GET "; is_complete = false }

head_feed-FedIsSafe_example :
    FedIsSafe started
      (codes "/ HTTP/1.1\r\n\r\nbody")
      (feed started (codes "/ HTTP/1.1\r\n\r\nbody"))
head_feed-FedIsSafe_example =
    head_feed-FedIsSafe started (codes "/ HTTP/1.1\r\n\r\nbody") (ground arith)

feed-started : (feed started (codes "/ HTTP")).result ≡ incomplete
unfolding feed find_crlf parse_request_line
feed-started = refl

head_feed-append_example :
    ((feed started (codes "/ HTTP")).consumed ≡ length (codes "/ HTTP"))
    × (feed started (codes "/ HTTP" ++ codes "/1.1\r\n\r\n")
        ≡ shift
            (length (codes "/ HTTP"))
            (feed (feed started (codes "/ HTTP")).parser (codes "/1.1\r\n\r\n")))
head_feed-append_example =
    head_feed-append started (codes "/ HTTP") (codes "/1.1\r\n\r\n") feed-started

is_tchar-ranges_example : is_tchar 0 ≡ (in_token_ranges 0 || 0 == 0)
is_tchar-ranges_example = is_tchar-ranges 0
