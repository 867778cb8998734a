-- ===== src/Tests/Chunked.antt =====
-- The chunked decoder on a body of two chunks that arrives in pieces.
use ckarta.Prelude.{◌≡◌, refl, ◌++◌, none, length, drop}
use ckarta.Http.Bytes.{codes}
use ckarta.Http.Chunked.{incomplete, init, parse_chunk_size, hex_value, next_size, append_line_byte}
use ckarta.Http.Chunked.Size.{chunk_size_spec, parse_chunk_size-eq-spec}
use ckarta.Http.Chunked.Feed.{feed}
use ckarta.Http.Chunked.Feed.Bounds.{FedIsSafe, chunked_feed-FedIsSafe, init-IsValid}
use ckarta.Http.Chunked.Feed.Fragments.{shift, chunked_feed-append}

parse_chunk_size_overflow : parse_chunk_size (codes "10000000000000000") ≡ none
unfolding parse_chunk_size hex_value next_size
parse_chunk_size_overflow = refl

parse_chunk_size-eq-spec_example :
    parse_chunk_size (codes "ffffffffffffffff;a=b") ≡ chunk_size_spec (codes "ffffffffffffffff;a=b")
parse_chunk_size-eq-spec_example = parse_chunk_size-eq-spec (codes "ffffffffffffffff;a=b")

chunked_feed-FedIsSafe_example :
    FedIsSafe (feed init (codes "3\r\nabc\r\n0\r\n\r\n")) (length (codes "3\r\nabc\r\n0\r\n\r\n"))
chunked_feed-FedIsSafe_example =
    chunked_feed-FedIsSafe init (codes "3\r\nabc\r\n0\r\n\r\n") init-IsValid

feed-split : (feed init (codes "3\r")).result ≡ incomplete
unfolding feed init append_line_byte hex_value next_size parse_chunk_size
feed-split = refl

feed-split_consumed : (feed init (codes "3\r")).consumed ≡ 1
unfolding feed init append_line_byte hex_value next_size parse_chunk_size
feed-split_consumed = refl

chunked_feed-append_example :
    feed init (codes "3\r" ++ codes "\nabc\r\n")
    ≡ shift (feed init (codes "3\r")).consumed (
        feed
          (feed init (codes "3\r")).decoder
          (drop (feed init (codes "3\r")).consumed (codes "3\r") ++ codes "\nabc\r\n"))
chunked_feed-append_example = chunked_feed-append init (codes "3\r") (codes "\nabc\r\n") feed-split
