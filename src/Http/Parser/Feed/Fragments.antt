-- ===== src/Http/Parser/Feed/Fragments.antt =====
-- `ck_http_parser_feed` on a head that arrives in pieces.
use ckarta.Prelude.{
  ℕ, suc, ◌+◌, ◌≡◌, ◌≢◌, refl, sym, ap, ◌∙◌, Bool, true, false, ◌&&◌, [], ◌∷◌, ◌++◌, Bytes, ◌==◌,
  if◌then◌else◌, length, arith, Bool-cases, inl, inr,
}
use ckarta.Http.Parser.{Result, incomplete, complete, header_too_large}
use ckarta.Http.Parser.Feed.Rounds.{
  full, ended, going, round, stored, feed_from-full, feed_from-ended, feed_from-going,
}
use ckarta.Http.Parser.Feed.{Parser, Fed, finish_head, feed_from, feed}

abbrev is_too_large : Result → Bool
is_too_large header_too_large = true
is_too_large _ = false

-- The same call at a later position: its count is moved on, but for the 0 of a full buffer.
abbrev pub shift : ℕ → Fed → Fed
shift n f = record f {
  consumed = if is_too_large f.result && f.consumed == 0 then 0 else n + f.consumed;
}

finish_head-shift :
    (p : Parser) (n position : ℕ)
    → finish_head p (n + (position + 1)) ≡ shift n (finish_head p (position + 1))
unfolding finish_head
finish_head-shift p n position = ground arith

finish_head-stops : (p : Parser) (position : ℕ) → (finish_head p position).result ≢ incomplete
unfolding finish_head
finish_head-stops p position = ground arith

feed_from-shift :
    (p : Parser) (n position at : ℕ) (source : Bytes)
    → at ≡ n + position
    → feed_from p at source ≡ shift n (feed_from p position source)
unfolding feed_from
feed_from-shift p n position at [] e = ground arith
feed_from-shift p n position at (c ∷ rest) e =
    let q : at + 1 ≡ n + (position + 1) = omega arith in
    elim (round p c) [
      | full h ↦ rw (feed_from-full p at c rest h, feed_from-full p position c rest h)
      | ended h k ↦
          rw (feed_from-ended p at c rest h k, feed_from-ended p position c rest h k, q)
            (finish_head-shift (stored p c) n position)
      | going h k ↦
          rw (feed_from-going p at c rest h k, feed_from-going p position c rest h k)
            (feed_from-shift (stored p c) n (position + 1) (at + 1) rest q)
    ]

-- What a loop that stalls has done, and that more input takes it up.
record Stalls (p : Parser) (position : ℕ) (source more : Bytes) (f : Fed) : Type 0 where
  pending : f.parser.is_complete ≡ p.is_complete
  all_read : f.consumed ≡ position + length source
  resumed :
      feed_from p position (source ++ more) ≡ feed_from f.parser (position + length source) more

too_large-stops : header_too_large ≢ incomplete
too_large-stops e = cc

feed_from-Stalls :
    (p : Parser) (position : ℕ) (source more : Bytes)
    → (feed_from p position source).result ≡ incomplete
    → Stalls p position source more (feed_from p position source)
unfolding feed_from
feed_from-Stalls p position [] more h = record {
  pending = refl;
  all_read = omega arith;
  resumed = ap (λ k. feed_from p k more) (omega arith);
}
feed_from-Stalls p position (c ∷ rest) more h = elim (round p c) [
  | full e ↦ absurd (too_large-stops (rw (feed_from-full p position c rest e) at h))
  | ended e k ↦ absurd (
      finish_head-stops (stored p c) (position + 1)
        (rw (feed_from-ended p position c rest e k) at h))
  | going e k ↦
      let later =
        feed_from-Stalls (stored p c) (position + 1) rest more
          (rw (feed_from-going p position c rest e k) at h) in
      let q : position + 1 + length rest ≡ position + suc (length rest) = omega arith in
      rw (feed_from-going p position c rest e k) (record {
        pending = later.pending;
        all_read = later.all_read ∙ q;
        resumed =
            feed_from-going p position c (rest ++ more) e k
            ∙ later.resumed
            ∙ ap (λ n. feed_from (feed_from (stored p c) (position + 1) rest).parser n more) q;
      })
]

feed-open :
    (p : Parser) (source : Bytes) → p.is_complete ≡ false → feed p source ≡ feed_from p 0 source
unfolding feed
feed-open p source h = rw h

complete-stops : complete ≢ incomplete
complete-stops e = cc

feed-stalled :
    (p : Parser) (source : Bytes) → (feed p source).result ≡ incomplete → p.is_complete ≡ false
unfolding feed
feed-stalled p source h = elim (Bool-cases p.is_complete) [
  | inl over ↦ absurd (complete-stops (rw (over, feed) at h))
  | inr open_head ↦ open_head
]

-- A head that arrives in pieces is read as it would be in one: where `feed` asks for more input it
-- has consumed all it was given, and feeding the whole input gives what feeding the rest to the
-- parser that it left gives, with the consumed count moved on by the length of the first piece
-- (the count stays 0 where the buffer is found full).
pub head_feed-append :
    (p : Parser) (source more : Bytes)
    → (feed p source).result ≡ incomplete
    → ((feed p source).consumed ≡ length source)
      × (feed p (source ++ more) ≡ shift (length source) (feed (feed p source).parser more))
head_feed-append p source more h =
    let o = feed-stalled p source h in
    let s = feed_from-Stalls p 0 source more (rw (feed-open p source o) at h) in
    let q : 0 + length source ≡ length source = omega arith in
    rw (feed-open p source o) (
      s.all_read ∙ q,
      feed-open p (source ++ more) o
          ∙ s.resumed
          ∙ feed_from-shift _ (length source) 0 _ more (omega arith)
          ∙ ap (shift (length source)) (sym (feed-open _ more (s.pending ∙ o))),
    )
