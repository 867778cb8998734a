-- ===== src/Tests/Reader.antt =====
-- The input and the reader on a POST, and a connection that goes on to its next request.
use ckarta.Prelude.{
  ℕ, ◌+◌, ◌≡◌, ◌≢◌, refl, false, [], ◌++◌, Bytes, none, some, leb, if◌then◌else◌, take, arith,
}
use ckarta.Http.Bytes.{codes, is_empty, is_tchar, split_colon}
use ckarta.Http.Parser.{
  skip_ows, trim_ows, span_equal_ci, parse_uint64, find_crlf, parse_request_line,
}
use ckarta.Http.Parser.Framing.{
  parse_content_length_headers, parse_transfer_encoding_headers, parse_connection_headers,
}
use ckarta.Http.Parser.Block.{parse_header_block}
use ckarta.Http.Parser.Feed as HeadFeed
use ckarta.Http.Input.{Result, init, feed}
use ckarta.Http.Input.Measured.{after, IsInOrder}
use ckarta.Http.Input.Order.{start, round, Flow-IsInOrder}
use ckarta.Http.Reader.{
  Reader, Driven, Sink, returned, body_backpressure, with_input, process_round, feed_length_of,
}
use ckarta.Http.Reader as Read
use ckarta.Http.Reader.Rounds.{IsValid}
use ckarta.Http.Reader.Drive.{Received, got, not_now, drive}
use ckarta.Http.Reader.Drive.Bounds.{IsReceive, drive-IsValid, drive-ends}
use ckarta.Http.Reader.Backpressure.{begin_of, fed_by, blocked-retried}
use ckarta.Http.RequestBody as Body

-- A head with a Content-Length, and the first bytes of its body.
abbrev arriving : Bytes
arriving = codes "POST /a HTTP/1.1\r\nHost: x\r\nContent-Length: 5\r\n\r\nhel"

arriving-result : (feed init arriving).result ≡ Result.body
unfolding feed init HeadFeed.feed HeadFeed.init parse_header_block find_crlf parse_request_line
    split_colon is_tchar skip_ows trim_ows span_equal_ci parse_uint64 parse_content_length_headers
    parse_transfer_encoding_headers parse_connection_headers
arriving-result = refl

Flow-IsInOrder_example :
    IsInOrder
      (after (feed init arriving)).input
      ([] ++ take (after (feed init arriving)).consumed arriving)
      ([] ++ (after (feed init arriving)).delivered)
Flow-IsInOrder_example =
    Flow-IsInOrder (round start arriving (λ e. ground (arith, e, arriving-result)))

-- `recv` gives three bytes, if it may.
abbrev three_bytes : ℕ → ℕ → Received
three_bytes i asked = if leb 3 asked then got (codes "GET") else not_now

three_bytes-IsReceive : IsReceive three_bytes
three_bytes-IsReceive i asked b e = ground (arith, e)

abbrev no_queue : Read.Queues
no_queue i = Body.init (record { head = 0; tail = 0; eof = false; error = false; buffer = λ j. 0 })

start-IsValid : IsValid Read.init
unfolding Read.init
start-IsValid = record { begin_inside = omega arith; bytes_fit = omega arith }

drive-IsValid_example : IsValid (drive Read.init (some 5) none three_bytes 3 no_queue).driven.reader
drive-IsValid_example =
    drive-IsValid Read.init (some 5) none three_bytes 3 no_queue three_bytes-IsReceive start-IsValid

drive-ends_example : (drive Read.init (some 5) none three_bytes 100000 no_queue).result ≢ none
drive-ends_example =
    drive-ends Read.init (some 5) none three_bytes 100000 no_queue three_bytes-IsReceive
      (λ i asked e. ground (arith, e)) start-IsValid (omega arith)

-- The reader that has received it.
abbrev arrived : Driven
arrived = record { reader = record Read.init { bytes = arriving }; queues = no_queue; taken = [] }

abbrev blocking : Sink
blocking call b = 2

abbrev taking : Sink
taking call b = 0

-- The head is 48 bytes long, and 3 of the body are there.
arrived-fed :
    ((fed_by arrived 1000).consumed ≡ 48)
    × (is_empty (fed_by arrived 1000).body_span ≡ false)
    × ((fed_by arrived 1000).input.pending_body ≡ (fed_by arrived 1000).body_span)
    × ((fed_by arrived 1000).input.pending_input_consumed ≡ 3)
    × (feed_length_of arrived.reader 1000 ≡ 51)
unfolding feed init HeadFeed.feed HeadFeed.init parse_header_block find_crlf parse_request_line
    split_colon is_tchar skip_ows trim_ows span_equal_ci parse_uint64 parse_content_length_headers
    parse_transfer_encoding_headers parse_connection_headers Read.init
arrived-fed = (refl, refl, refl, refl, refl)

blocked-retried_example :
    (e : Driven) × (process_round (some blocking) 0 arrived 1000 ≡ returned body_backpressure e)
    × (begin_of (process_round (some taking) 0 arrived 1000)
        ≡ begin_of (process_round (some taking) 1 e 1000) + (fed_by arrived 1000).consumed)
blocked-retried_example =
    let (c, s, p, q, l) = arrived-fed in
    blocked-retried blocking taking 0 1 arrived 1000 1000 (λ e. omega arith) (λ e. omega arith)
      (omega (arith, c, q, l)) s p (omega (arith, q, l)) refl refl refl
