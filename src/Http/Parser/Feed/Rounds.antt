-- ===== src/Http/Parser/Feed/Rounds.antt =====
-- One round of the byte loop of `ck_http_parser_feed`, by what it meets.
use ckarta.Prelude.{
  ℕ, ◌+◌, ◌≡◌, true, false, [], ◌∷◌, ◌++◌, Bytes, leb, length, Bool-cases, inl, inr,
}
use ckarta.Http.Parser.{header_too_large, max_header_bytes}
use ckarta.Http.Parser.Feed.{Parser, leave, ends_head, finish_head, feed_from}

abbrev pub stored : Parser → ℕ → Parser
stored p c = record p { buffer = p.buffer ++ c ∷ [] }

pub data Round (p : Parser) (c : ℕ) : Type 0 where
  full : leb max_header_bytes (length p.buffer) ≡ true → Round p c
  ended :
      leb max_header_bytes (length p.buffer) ≡ false
      → ends_head (p.buffer ++ c ∷ []) ≡ true
      → Round p c
  going :
      leb max_header_bytes (length p.buffer) ≡ false
      → ends_head (p.buffer ++ c ∷ []) ≡ false
      → Round p c

pub round : (p : Parser) (c : ℕ) → Round p c
round p c = elim (Bool-cases (leb max_header_bytes (length p.buffer))) [
  | inl h ↦ full h
  | inr h ↦ elim (Bool-cases (ends_head (p.buffer ++ c ∷ []))) [
    | inl k ↦ ended h k
    | inr k ↦ going h k
  ]
]

module _ (p : Parser) (position c : ℕ) (rest : Bytes) where
  pub feed_from-full :
      leb max_header_bytes (length p.buffer) ≡ true
      → feed_from p position (c ∷ rest) ≡ leave header_too_large p 0
  unfolding feed_from
  feed_from-full h = rw (h, feed_from)

  pub feed_from-ended :
      leb max_header_bytes (length p.buffer) ≡ false
      → ends_head (p.buffer ++ c ∷ []) ≡ true
      → feed_from p position (c ∷ rest) ≡ finish_head (stored p c) (position + 1)
  unfolding feed_from
  feed_from-ended h k = rw (h, k, feed_from)

  pub feed_from-going :
      leb max_header_bytes (length p.buffer) ≡ false
      → ends_head (p.buffer ++ c ∷ []) ≡ false
      → feed_from p position (c ∷ rest) ≡ feed_from (stored p c) (position + 1) rest
  unfolding feed_from
  feed_from-going h k = rw (h, k, feed_from)
