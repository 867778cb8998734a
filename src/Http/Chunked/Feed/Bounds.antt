-- ===== src/Http/Chunked/Feed/Bounds.antt =====
-- The decoder's representation invariant and the extent of what one `feed` reads.
use ckarta.Prelude.{
  ℕ, suc, ◌+◌, ◌≤◌, ◌<◌, ◌≡◌, refl, [], ◌∷◌, ◌++◌, Bytes, Option, none, some, length, length-append,
  uint64_max, arith,
}
use ckarta.Http.Chunked.{
  State, size, chunk, chunk_crlf, trailers, done, Decoder, append_line_byte, parse_chunk_size,
  max_line, max_trailers, max_trailer_bytes, max_body, init,
}
use ckarta.Http.Chunked.Size.{parse_chunk_size-le}
use ckarta.Http.Chunked.Feed.{
  Round, one, two, wait, finish, fail, emit, round, size_round, chunk_round, crlf_round,
  trailer_round, Fed, feed_from, feed, after_round, appended, sized, end_trailer, line_feed,
}

-- The line leaves room for its NUL, the counters keep their limits, and a chunk that is being read
-- has bytes left.
pub record IsValid (d : Decoder) : Type 0 where
  pub line_fits : length d.line < max_line
  pub remaining_fits : d.chunk_remaining ≤ uint64_max
  pub total_fits : d.total_decoded ≤ max_body
  pub trailer_bytes_fit : d.trailer_bytes ≤ max_trailer_bytes + 1
  pub trailers_fit : d.trailer_count ≤ max_trailers
  pub chunk_open : d.state ≡ chunk → 0 < d.chunk_remaining

-- What a round may do with `available` bytes in front of it, its own byte included.
abbrev RoundIsSafe : Round → ℕ → Type 0
RoundIsSafe (one e) available = IsValid e
RoundIsSafe (two e) available = IsValid e × (2 ≤ available)
RoundIsSafe (wait e) available = IsValid e
RoundIsSafe (finish e) available = IsValid e × (2 ≤ available)
RoundIsSafe (fail r e) available = IsValid e
RoundIsSafe (emit e n) available = IsValid e × (0 < n) × (n ≤ available)

append_line_byte-lem :
    (d : Decoder) (v : ℕ) (e : Decoder)
    → append_line_byte d v ≡ some e
    → (length d.line + 1 < max_line) × (e ≡ record d { line = d.line ++ v ∷ [] })
unfolding append_line_byte
append_line_byte-lem d v e h = ground arith

appended-safe :
    (d : Decoder) (v n : ℕ) → IsValid d → RoundIsSafe (appended d (append_line_byte d v)) n
unfolding appended append_line_byte
appended-safe d v n k = ground (arith, length-append d.line (v ∷ []))

sized_in-safe :
    (d : Decoder) (size? : Option ℕ) (n : ℕ)
    → ((m : ℕ) → size? ≡ some m → m ≤ uint64_max)
    → 2 ≤ n
    → IsValid d
    → RoundIsSafe (sized d size?) n
unfolding sized
sized_in-safe d none n bound h k = k
sized_in-safe d (some m) n bound h k = ground (arith, bound m refl)

sized-safe :
    (d : Decoder) (n : ℕ) → 2 ≤ n → IsValid d → RoundIsSafe (sized d (parse_chunk_size d.line)) n
sized-safe d n = sized_in-safe d (parse_chunk_size d.line) n (parse_chunk_size-le d.line)

chunk_round-safe :
    (d : Decoder) (n : ℕ) → IsValid d → d.state ≡ chunk → 0 < n → RoundIsSafe (chunk_round d n) n
unfolding chunk_round
chunk_round-safe d n k e h = ground (arith, k.chunk_open)

end_trailer-safe : (d : Decoder) (n : ℕ) → 2 ≤ n → IsValid d → RoundIsSafe (end_trailer d) n
unfolding end_trailer
end_trailer-safe d n h k = ground arith

line_feed-safe :
    (before after : Decoder) (next : Round) (rest : Bytes)
    → IsValid before
    → IsValid after
    → RoundIsSafe next (suc (length rest))
    → RoundIsSafe (line_feed before after next rest) (suc (length rest))
unfolding line_feed
line_feed-safe before after next [] b a h = b
line_feed-safe before after next (w ∷ rest) b a h = ground arith

size_round-safe :
    (d : Decoder) (v : ℕ) (rest : Bytes)
    → IsValid d
    → RoundIsSafe (size_round d v rest) (suc (length rest))
unfolding size_round line_feed
size_round-safe d v [] k = ground (arith, appended-safe d v 1)
size_round-safe d v (w ∷ rest) k =
    ground (arith, appended-safe d v (length (v ∷ w ∷ rest)), sized-safe d (length (v ∷ w ∷ rest)))

crlf_round-safe :
    (d : Decoder) (v : ℕ) (rest : Bytes)
    → IsValid d
    → RoundIsSafe (crlf_round d v rest) (suc (length rest))
unfolding crlf_round
crlf_round-safe d v [] k = k
crlf_round-safe d v (w ∷ rest) k = ground arith

trailer_round-safe :
    (d : Decoder) (v : ℕ) (rest : Bytes)
    → IsValid d
    → d.state ≡ trailers
    → RoundIsSafe (trailer_round d v rest) (suc (length rest))
unfolding trailer_round line_feed
trailer_round-safe d v [] k e =
    ground (arith, appended-safe (record d { trailer_bytes = d.trailer_bytes + 1 }) v 1)
trailer_round-safe d v (w ∷ rest) k e = ground (
  arith,
  appended-safe (record d { trailer_bytes = d.trailer_bytes + 1 }) v (length (v ∷ w ∷ rest)),
  end_trailer-safe (record d { trailer_bytes = d.trailer_bytes + 2 }) (length (v ∷ w ∷ rest)),
)

round-safe :
    (s : State) (d : Decoder) (v : ℕ) (rest : Bytes)
    → IsValid d
    → d.state ≡ s
    → RoundIsSafe (round s d v rest) (suc (length rest))
unfolding round
round-safe size d v rest k e = size_round-safe d v rest k
round-safe chunk d v rest k e = chunk_round-safe d (suc (length rest)) k e (omega arith)
round-safe chunk_crlf d v rest k e = crlf_round-safe d v rest k
round-safe trailers d v rest k e = trailer_round-safe d v rest k e
round-safe done d v rest k e = k

-- The span that goes out: none and empty, or one that is not empty and ends where the input is
-- consumed to.
abbrev pub SpanIsSafe : Option ℕ → ℕ → ℕ → Type 0
SpanIsSafe none span consumed = span ≡ 0
SpanIsSafe (some offset) span consumed = (0 < span) × (offset + span ≡ consumed)

-- What `feed` may return for an input of `n` bytes.
pub record FedIsSafe (f : Fed) (n : ℕ) : Type 0 where
  pub valid : IsValid f.decoder
  pub inside : f.consumed ≤ n
  pub span : SpanIsSafe f.body_data f.body_length f.consumed

after_round-safe :
    (r : Round) (position available : ℕ) (behind_one behind_two : Decoder → Fed)
    → RoundIsSafe r available
    → ((e : Decoder) → IsValid e → FedIsSafe (behind_one e) (position + available))
    → ((e : Decoder) → 2 ≤ available → IsValid e → FedIsSafe (behind_two e) (position + available))
    → FedIsSafe (after_round r position behind_one behind_two) (position + available)
unfolding after_round
after_round-safe (one e) position n one_on two_on k h1 h2 = h1 e k
after_round-safe (two e) position n one_on two_on k h1 h2 = h2 e k.1 k.0
after_round-safe (wait e) position n one_on two_on k h1 h2 = ground arith
after_round-safe (finish e) position n one_on two_on k h1 h2 = ground arith
after_round-safe (fail r e) position n one_on two_on k h1 h2 = ground arith
after_round-safe (emit e m) position n one_on two_on k h1 h2 = ground arith

feed_from-safe :
    (d : Decoder) (position : ℕ) (source : Bytes) (n : ℕ)
    → n ≡ position + length source
    → IsValid d
    → FedIsSafe (feed_from d position source) n
unfolding feed_from
feed_from-safe d position [] n e k = ground arith
feed_from-safe d position (v ∷ []) n e k = rw e (
    after_round-safe (round d.state d v []) position 1 _ _ (round-safe d.state d v [] k refl)
      (λ e' k'. ground arith) (λ e' h k'. absurd (omega arith)))
feed_from-safe d position (v ∷ w ∷ rest) n e k = rw e (
    after_round-safe (round d.state d v (w ∷ rest)) position (suc (suc (length rest))) _ _
      (round-safe d.state d v (w ∷ rest) k refl)
      (λ e' k'. feed_from-safe e' (position + 1) (w ∷ rest) _ (omega arith) k')
      (λ e' h k'. feed_from-safe e' (position + 2) rest _ (omega arith) k'))

pub init-IsValid : IsValid init
unfolding init
init-IsValid = ground arith

-- From a decoder that keeps the invariant, `feed` leaves one that keeps it, consumes no byte that
-- it was not given, and hands out no body, or a body span that is not empty, lies inside the
-- input and ends where the input is consumed to.
pub chunked_feed-FedIsSafe :
    (d : Decoder) (source : Bytes) → IsValid d → FedIsSafe (feed d source) (length source)
unfolding feed
chunked_feed-FedIsSafe d source k = ground (arith, feed_from-safe d 0 source (length source))
