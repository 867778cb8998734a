-- ===== src/Http/Chunked/Feed.antt =====
-- `ck_http_chunked_feed`: one round of its loop for each state, and the loop.
pub mod Bounds
pub mod Fragments
use ckarta.Prelude.{
  ℕ, ◌+◌, ◌-◌, ◌^◌, Bool, true, false, not, ◌&&◌, ◌||◌, List, [], ◌∷◌, Bytes, Option, none, some,
  ltb, leb, ◌==◌, if◌then◌else◌, length, sub64, add64,
}
use ckarta.Http.Bytes.{is_empty}
use ckarta.Http.Chunked.{
  Result, incomplete, body, complete, bad_request, too_large, State, size, chunk, chunk_crlf,
  trailers, done, Decoder, append_line_byte, parse_chunk_size, valid_trailer_field, max_body,
  max_trailers, max_trailer_bytes,
}

-- What one round does: go on behind one or two bytes (`one`, `two`), leave the loop in front of
-- its byte (`wait`), return an error (`fail`, which leaves `*consumed` at 0), return COMPLETE
-- behind two bytes (`finish`), or return DATA with a body span of the given length (`emit`).
pub data Round : Type 0 where
  one two wait finish : Decoder → Round
  fail : Result → Decoder → Round
  emit : Decoder → ℕ → Round

appended : Decoder → Option Decoder → Round
appended d none = fail too_large d
appended d (some e) = one e

-- The line end of a chunk-size line.
sized : Decoder → Option ℕ → Round
sized d none = fail bad_request d
sized d (some n) =
    two (record d { chunk_remaining = n; line = []; state = if n == 0 then trailers else chunk })

-- The line end of a trailer line; `d` has both of its bytes counted.
end_trailer : Decoder → Round
end_trailer d =
    if is_empty d.line
    then finish (record d { state = done })
    else if leb max_trailers d.trailer_count || not (valid_trailer_field d.line)
    then fail bad_request d
    else two (record d { trailer_count = d.trailer_count + 1; line = [] })

-- A CR wants its LF: `wait` if the input ends here.
line_feed : Decoder → Decoder → Round → Bytes → Round
line_feed before after next [] = wait before
line_feed before after next (w ∷ rest) = if w == b'\n' then next else fail bad_request after

size_round : Decoder → ℕ → Bytes → Round
unfolding appended sized line_feed
size_round d v rest =
    if v == b'\r'
    then line_feed d d (sized d (parse_chunk_size d.line)) rest
    else if v == b'\n'
    then fail bad_request d
    else appended d (append_line_byte d v)

abbrev pub span_length : Decoder → ℕ → ℕ
span_length d available = if ltb d.chunk_remaining available then d.chunk_remaining else available

chunk_round : Decoder → ℕ → Round
chunk_round d available =
    let n = span_length d available in
    let left = sub64 d.chunk_remaining n in
    if ltb max_body d.total_decoded || ltb (max_body - d.total_decoded) n
    then fail too_large d
    else emit
        (record d {
          chunk_remaining = left;
          total_decoded = add64 d.total_decoded n;
          state = if left == 0 then chunk_crlf else d.state;
        })
        n

crlf_round : Decoder → ℕ → Bytes → Round
crlf_round d v [] = wait d
crlf_round d v (w ∷ rest) =
    if v == b'\r' && w == b'\n' then two (record d { state = size }) else fail bad_request d

-- `trailer_bytes` is at most `max_trailer_bytes` where it is counted up, so it cannot wrap.
trailer_round : Decoder → ℕ → Bytes → Round
unfolding appended end_trailer line_feed
trailer_round d v rest =
    let d1 = record d { trailer_bytes = d.trailer_bytes + 1 } in
    let d2 = record d { trailer_bytes = d.trailer_bytes + 2 } in
    if leb max_trailer_bytes d.trailer_bytes
    then fail too_large d
    else if v == b'\r'
    then line_feed d d1 (end_trailer d2) rest
    else if v == b'\n'
    then fail bad_request d1
    else appended d1 (append_line_byte d1 v)

-- One round at the byte `v`, with the bytes behind it. In `done` the loop's last statement runs.
pub round : State → Decoder → ℕ → Bytes → Round
unfolding size_round chunk_round crlf_round trailer_round
round size d v rest = size_round d v rest
round chunk d v rest = chunk_round d (length (v ∷ rest))
round chunk_crlf d v rest = crlf_round d v rest
round trailers d v rest = trailer_round d v rest
round done d v rest = fail bad_request d

-- What `feed` returns, and what it stores through its pointers.
pub record Fed : Type 0 where
  pub result : Result
  pub decoder : Decoder
  pub consumed : ℕ
  pub body_data : Option ℕ
  pub body_length : ℕ

abbrev pub leave : Result → Decoder → ℕ → Fed
leave r d n = record { result = r; decoder = d; consumed = n; body_data = none; body_length = 0 }

abbrev pub deliver : Decoder → ℕ → ℕ → Fed
deliver d position n = record {
  result = body;
  decoder = d;
  consumed = position + n;
  body_data = some position;
  body_length = n;
}

-- What follows a round at `position`: the loop behind one byte or behind two, or an exit.
after_round : Round → ℕ → (Decoder → Fed) → (Decoder → Fed) → Fed
after_round (one e) position behind_one behind_two = behind_one e
after_round (two e) position behind_one behind_two = behind_two e
after_round (wait e) position behind_one behind_two = leave incomplete e position
after_round (finish e) position behind_one behind_two = leave complete e (position + 2)
after_round (fail r e) position behind_one behind_two = leave r e 0
after_round (emit e n) position behind_one behind_two = deliver e position n

-- The loop, at `position`, on the bytes from there on. No round takes two bytes of one.
pub feed_from : Decoder → ℕ → Bytes → Fed
unfolding round after_round
feed_from d position [] = leave incomplete d position
feed_from d position (v ∷ []) =
    after_round (round d.state d v []) position (λ e. leave incomplete e (position + 1))
      (λ e. leave incomplete e (position + 2))
feed_from d position (v ∷ w ∷ rest) =
    after_round (round d.state d v (w ∷ rest)) position (λ e. feed_from e (position + 1) (w ∷ rest))
      (λ e. feed_from e (position + 2) rest)

abbrev is_done : State → Bool
is_done done = true
is_done _ = false

unfoldable pub feed : Decoder → Bytes → Fed
unfolding feed_from
feed d source = if is_done d.state then leave complete d 0 else feed_from d 0 source
