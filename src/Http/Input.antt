-- ===== src/Http/Input.antt =====
-- The input of one request, c/http/ck_http_input.c: the head parser, and behind the head a body that
-- is measured, chunked or absent. A body span stays pending until the caller acknowledges it. The
-- pending span is the list of its bytes, which the caller keeps in place until then.
pub mod Measured
pub mod Order
use ckarta.Prelude.{
  ℕ, ◌+◌, ◌-◌, Bool, true, false, not, ◌&&◌, ◌||◌, [], Bytes, Option, none, some, ltb, ◌==◌,
  if◌then◌else◌, length, take, drop,
}
use ckarta.Http.Bytes.{is_empty}
use ckarta.Http.Chunked
use ckarta.Http.Chunked.Feed as ChunkedFeed
use ckarta.Http.Parser
use ckarta.Http.Parser.Feed as HeadFeed

pub data Result : Type 0 where
  incomplete body complete bad_request too_large eof_incomplete : Result

pub record Input : Type 0 where
  pub parser : HeadFeed.Parser
  pub chunked : Chunked.Decoder
  pub request : Parser.Request
  pub content_length_remaining : ℕ
  pub header_complete : Bool
  pub message_complete : Bool
  pub pending_body : Bytes
  pub pending_input_consumed : ℕ
  pub pending_message_complete : Bool

-- A request of zeros, as `memset` leaves it.
abbrev pub no_request : Parser.Request
no_request = record {
  method = [];
  target = [];
  version = [];
  headers = [];
  body_mode = Parser.no_body;
  body_bytes = 0;
  connection_close_required = false;
}

unfoldable pub init : Input
init = record {
  parser = HeadFeed.init;
  chunked = Chunked.init;
  request = no_request;
  content_length_remaining = 0;
  header_complete = false;
  message_complete = false;
  pending_body = [];
  pending_input_consumed = 0;
  pending_message_complete = false;
}

-- What `feed` returns and stores; `body_span` are the bytes of `*body_data`, `*body_length`.
pub record Fed : Type 0 where
  pub result : Result
  pub input : Input
  pub consumed : ℕ
  pub body_span : Bytes

abbrev pub leave : Result → Input → ℕ → Fed
leave r i n = record { result = r; input = i; consumed = n; body_span = [] }

pub map_chunked_result : Chunked.Result → Result
map_chunked_result Chunked.incomplete = incomplete
map_chunked_result Chunked.body = body
map_chunked_result Chunked.complete = complete
map_chunked_result Chunked.too_large = too_large
map_chunked_result Chunked.bad_request = bad_request

abbrev is_chunked_complete : Chunked.Result → Bool
is_chunked_complete Chunked.complete = true
is_chunked_complete _ = false

-- The part for a Content-Length; `rest` is the input behind `*consumed`.
pub feed_measured : Input → ℕ → Bytes → Fed
feed_measured i consumed rest =
    let available = length rest in
    let remaining = i.content_length_remaining in
    let n = if ltb remaining available then remaining else available in
    let span = take n rest in
    let j = record i {
      pending_body = span;
      pending_input_consumed = n;
      pending_message_complete = remaining == n;
      content_length_remaining = remaining - n;
    } in
    record {
      result = if not (n == 0) then body else incomplete;
      input = j;
      consumed = consumed;
      body_span = span;
    }

-- The bytes of the span that the chunked decoder hands out.
abbrev pub span_of : ChunkedFeed.Fed → Bytes → Bytes
span_of f rest = elim f.body_data [
  | none ↦ []
  | some offset ↦ take f.body_length (drop offset rest)
]

-- What follows a call of the chunked decoder.
pub behind_chunked : Input → ℕ → Bytes → ChunkedFeed.Fed → Fed
unfolding map_chunked_result
behind_chunked i consumed rest f =
    let j = record i { chunked = f.decoder } in
    if not (f.body_length == 0)
    then record {
      result = body;
      input = record j {
        pending_body = span_of f rest;
        pending_input_consumed = f.consumed;
        pending_message_complete = is_chunked_complete f.result;
      };
      consumed = consumed;
      body_span = span_of f rest;
    }
    else leave (map_chunked_result f.result)
        (record j { message_complete = j.message_complete || is_chunked_complete f.result })
        (consumed + f.consumed)

pub feed_body : Parser.BodyMode → Input → ℕ → Bytes → Fed
unfolding feed_measured behind_chunked
feed_body Parser.content_length i consumed rest = feed_measured i consumed rest
feed_body Parser.chunked i consumed rest =
    behind_chunked i consumed rest (ChunkedFeed.feed i.chunked rest)
feed_body Parser.no_body i consumed rest = leave bad_request i consumed

abbrev pub is_chunked : Parser.BodyMode → Bool
is_chunked Parser.chunked = true
is_chunked _ = false

abbrev pub has_no_body : Parser.BodyMode → ℕ → Bool
has_no_body Parser.no_body n = true
has_no_body Parser.content_length n = n == 0
has_no_body Parser.chunked n = false

-- Once the head is complete; `i` has its request.
pub head_read : Input → Input
head_read i = record i {
  header_complete = true;
  content_length_remaining = i.request.body_bytes;
  chunked = if is_chunked i.request.body_mode then Chunked.init else i.chunked;
}

pub head_done : Input → ℕ → Bytes → Fed
unfolding head_read feed_body
head_done i consumed rest =
    let j = head_read i in
    if has_no_body i.request.body_mode i.request.body_bytes
    then leave complete (record j { message_complete = true }) consumed
    else feed_body i.request.body_mode j consumed rest

abbrev pub request_or : Option Parser.Request → Parser.Request → Parser.Request
request_or none q = q
request_or (some p) q = p

-- What follows a call of the head parser. A request that is not complete is not handed out.
pub behind_head : Parser.Result → Input → HeadFeed.Fed → Bytes → Fed
unfolding head_done
behind_head Parser.incomplete i f source =
    leave incomplete (record i { parser = f.parser }) f.consumed
behind_head Parser.header_too_large i f source =
    leave too_large (record i { parser = f.parser }) f.consumed
behind_head Parser.bad_request i f source =
    leave bad_request (record i { parser = f.parser }) f.consumed
behind_head Parser.complete i f source =
    head_done (record i { parser = f.parser; request = request_or f.request i.request }) f.consumed
      (drop f.consumed source)

unfoldable pub feed : Input → Bytes → Fed
unfolding behind_head feed_body
feed i source =
    if not (is_empty i.pending_body)
    then record { result = body; input = i; consumed = 0; body_span = i.pending_body }
    else if i.message_complete
    then leave complete i 0
    else if not i.header_complete
    then (let f = HeadFeed.feed i.parser source in behind_head f.result i f source)
    else feed_body i.request.body_mode i 0 source

-- `none`: there is no pending span. Otherwise the new input and `*consumed`.
unfoldable pub ack_body : Input → Option (Input × ℕ)
ack_body i =
    if is_empty i.pending_body
    then none
    else some (
      record i {
        message_complete = i.message_complete || i.pending_message_complete;
        pending_body = [];
        pending_input_consumed = 0;
        pending_message_complete = false;
      },
      i.pending_input_consumed,
    )

pub eof : Input → Result
eof i = if i.message_complete then complete else eof_incomplete

unfoldable pub request_of : Input → Option Parser.Request
request_of i = if not i.header_complete then none else some i.request

unfoldable pub next_request : Input → Input
unfolding init
next_request i = init
