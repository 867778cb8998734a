-- ===== src/Http/Parser/Feed/Bounds.antt =====
-- What `ck_http_parser_feed` buffers and consumes.
use ckarta.Prelude.{
  ℕ, zero, suc, ◌+◌, ◌≤◌, ◌≡◌, ◌≢◌, sym, ap, ◌∙◌, true, false, [], ◌∷◌, ◌++◌, append_assoc,
  append-nil, Bytes, length, length-append, take, arith, Bool-cases, inl, inr,
}
use ckarta.Http.Parser.{complete, header_too_large, max_header_bytes}
use ckarta.Http.Parser.Feed.Rounds.{
  full, ended, going, round, stored, feed_from-full, feed_from-ended, feed_from-going,
}
use ckarta.Http.Parser.Feed.{Parser, Fed, leave, ends_head, finish_head, feed_from, feed}

-- The buffer keeps its limit, and a completed one ends with the blank line.
pub record IsValid (p : Parser) : Type 0 where
  pub fits : length p.buffer ≤ max_header_bytes
  pub ended : p.is_complete ≡ true → ends_head p.buffer ≡ true

-- What a call on `source` may do: nothing beyond its end is consumed, and what is consumed goes
-- to the end of the buffer. Only the call that finds the buffer full stores bytes and reports 0.
pub record FedIsSafe (p : Parser) (source : Bytes) (f : Fed) : Type 0 where
  pub valid : IsValid f.parser
  pub inside : f.consumed ≤ length source
  pub stored : f.result ≢ header_too_large → f.parser.buffer ≡ p.buffer ++ take f.consumed source

finish_head-lem :
    (p : Parser) (position : ℕ)
    → ((finish_head p position).parser.buffer ≡ p.buffer)
      × ((finish_head p position).consumed ≡ position)
unfolding finish_head
finish_head-lem p position = ground arith

finish_head-IsValid :
    (p : Parser) (position : ℕ)
    → length p.buffer ≤ max_header_bytes
    → ends_head p.buffer ≡ true
    → IsValid (finish_head p position).parser
unfolding finish_head
finish_head-IsValid p position h k = ground arith

feed_from-safe :
    (p : Parser) (position : ℕ) (source : Bytes)
    → length p.buffer ≤ max_header_bytes
    → p.is_complete ≡ false
    → IsValid (feed_from p position source).parser
      × ((feed_from p position source).consumed ≤ position + length source)
unfolding feed_from
feed_from-safe p position [] h k = ground arith
feed_from-safe p position (c ∷ rest) h k = elim (round p c) [
  | full e ↦ rw (feed_from-full p position c rest e) (ground arith)
  | ended e ends ↦
      let fits : length (p.buffer ++ c ∷ []) ≤ max_header_bytes =
        ground (arith, length-append p.buffer (c ∷ [])) in
      rw (feed_from-ended p position c rest e ends) (
        finish_head-IsValid (stored p c) (position + 1) fits ends,
        omega (arith, (finish_head-lem (stored p c) (position + 1)).1),
      )
  | going e ends ↦
      let fits : length (p.buffer ++ c ∷ []) ≤ max_header_bytes =
        ground (arith, length-append p.buffer (c ∷ [])) in
      let (valid, inside) = feed_from-safe (stored p c) (position + 1) rest fits k in
      rw (feed_from-going p position c rest e ends) (valid, omega arith)
]

-- What the loop stores: the bytes that it has passed.
feed_from-stored :
    (p : Parser) (position : ℕ) (source : Bytes)
    → let f = feed_from p position source in
      f.result ≢ header_too_large
      → (n : ℕ) × (f.consumed ≡ position + n) × (f.parser.buffer ≡ p.buffer ++ take n source)
unfolding feed_from
feed_from-stored p position [] h = (0, omega arith, sym (append-nil p.buffer))
feed_from-stored p position (c ∷ rest) h = elim (round p c) [
  | full e ↦ absurd (h (rw (feed_from-full p position c rest e)))
  | ended e ends ↦
      let (same, count) = finish_head-lem (stored p c) (position + 1) in
      rw (feed_from-ended p position c rest e ends) (suc zero, count, same)
  | going e ends ↦
      let (n, count, buffer) =
        feed_from-stored (stored p c) (position + 1) rest
          (rw (feed_from-going p position c rest e ends) at h) in
      rw (feed_from-going p position c rest e ends)
        (suc n, omega (arith, count), buffer ∙ append_assoc p.buffer (c ∷ []) (take n rest))
]

feed-open :
    (p : Parser) (source : Bytes) → p.is_complete ≡ false → feed p source ≡ feed_from p 0 source
unfolding feed
feed-open p source h = rw h

feed-over :
    (p : Parser) (source : Bytes) → p.is_complete ≡ true → feed p source ≡ leave complete p 0
unfolding feed
feed-over p source h = rw h

-- `feed` keeps the buffer within 32768 bytes and a completed one ending with a blank line, consumes
-- no byte that it was not given, and, unless it answers HEADER_TOO_LARGE, stores at the end of the
-- buffer exactly the bytes that it consumes.
pub head_feed-FedIsSafe :
    (p : Parser) (source : Bytes) → IsValid p → FedIsSafe p source (feed p source)
head_feed-FedIsSafe p source v = elim (Bool-cases p.is_complete) [
  | inl over ↦
      rw (feed-over p source over)
        (record { valid = v; inside = omega arith; stored = λ h. sym (append-nil p.buffer) })
  | inr head_open ↦
      let (valid, inside) = feed_from-safe p 0 source v.fits head_open in
      rw (feed-open p source head_open) (record {
        valid = valid;
        inside = omega arith;
        stored = λ h.
            let (n, count, buffer) = feed_from-stored p 0 source h in
            let q : n ≡ (feed_from p 0 source).consumed = omega (arith, count) in
            buffer ∙ ap (λ k. p.buffer ++ take k source) q;
      })
]
