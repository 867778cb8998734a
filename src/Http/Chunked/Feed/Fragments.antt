-- ===== src/Http/Chunked/Feed/Fragments.antt =====
-- `ck_http_chunked_feed` on an input that arrives in pieces.
use ckarta.Prelude.{
  ℕ, suc, ◌+◌, ◌-◌, ◌≤◌, ◌≡◌, ◌≢◌, refl, sym, ap, ◌∙◌, Bool, true, false, [], ◌∷◌, ◌++◌, Bytes,
  Option, none, some, if◌then◌else◌, drop, arith,
}
use ckarta.Http.Chunked.{
  Result, incomplete, bad_request, too_large, State, size, chunk, chunk_crlf, trailers, done,
  Decoder, append_line_byte,
}
use ckarta.Http.Chunked.Feed.{
  Round, one, two, wait, finish, fail, emit, round, size_round, chunk_round, crlf_round,
  trailer_round, after_round, appended, sized, end_trailer, line_feed, Fed, leave, feed_from, feed,
}

-- The results on which the caller gives up.
abbrev is_failure : Result → Bool
is_failure bad_request = true
is_failure too_large = true
is_failure _ = false

-- What a round on `v ∷ rest` tells of the round on `v ∷ rest ++ more`.
abbrev RoundIsStable : Round → State → Decoder → ℕ → Bytes → Bytes → Type 0
RoundIsStable (one e) s d v rest more = (round s d v (rest ++ more) ≡ one e) × (e.state ≢ done)
RoundIsStable (two e) s d v rest more =
    (rest ≢ []) × (round s d v (rest ++ more) ≡ two e) × (e.state ≢ done)
RoundIsStable (wait e) s d v rest more = (e ≡ d) × (rest ≡ [])
RoundIsStable (finish e) s d v rest more = Unit
RoundIsStable (fail r e) s d v rest more = is_failure r ≡ true
RoundIsStable (emit e n) s d v rest more = Unit

size_round-stable :
    (d : Decoder) (v : ℕ) (rest more : Bytes)
    → d.state ≡ size
    → RoundIsStable (round size d v rest) size d v rest more
unfolding round size_round line_feed appended sized append_line_byte
size_round-stable d v [] [] e = ground arith
size_round-stable d v [] (w ∷ more) e = ground arith
size_round-stable d v (w ∷ rest) more e = ground arith

trailer_round-stable :
    (d : Decoder) (v : ℕ) (rest more : Bytes)
    → d.state ≡ trailers
    → RoundIsStable (round trailers d v rest) trailers d v rest more
unfolding round trailer_round line_feed appended end_trailer append_line_byte
trailer_round-stable d v [] [] e = ground arith
trailer_round-stable d v [] (w ∷ more) e = ground arith
trailer_round-stable d v (w ∷ rest) more e = ground arith

crlf_round-stable :
    (d : Decoder) (v : ℕ) (rest more : Bytes)
    → RoundIsStable (round chunk_crlf d v rest) chunk_crlf d v rest more
unfolding round crlf_round
crlf_round-stable d v [] more = ground arith
crlf_round-stable d v (w ∷ rest) more = ground arith

chunk_round-stable :
    (d : Decoder) (v : ℕ) (rest more : Bytes)
    → RoundIsStable (round chunk d v rest) chunk d v rest more
unfolding round chunk_round
chunk_round-stable d v rest more = ground arith

round-stable :
    (s : State) (d : Decoder) (v : ℕ) (rest more : Bytes)
    → d.state ≡ s
    → RoundIsStable (round s d v rest) s d v rest more
unfolding round
round-stable size d v rest more e = size_round-stable d v rest more e
round-stable chunk d v rest more e = chunk_round-stable d v rest more
round-stable chunk_crlf d v rest more e = crlf_round-stable d v rest more
round-stable trailers d v rest more e = trailer_round-stable d v rest more e
round-stable done d v rest more e = refl

feed_from-one :
    (d e : Decoder) (position v : ℕ) (rest : Bytes)
    → round d.state d v rest ≡ one e
    → feed_from d position (v ∷ rest) ≡ feed_from e (position + 1) rest
unfolding feed_from
feed_from-one d e position v [] h = rw h
feed_from-one d e position v (w ∷ rest) h = rw h

feed_from-two :
    (d e : Decoder) (position v w : ℕ) (rest : Bytes)
    → round d.state d v (w ∷ rest) ≡ two e
    → feed_from d position (v ∷ w ∷ rest) ≡ feed_from e (position + 2) rest
unfolding feed_from
feed_from-two d e position v w rest h = rw h

-- `f` stalled on `source`, which began at `position`: it can be taken up with `more`.
record Resumes (f : Fed) (position : ℕ) (source more : Bytes) (whole : Fed) : Type 0 where
  open_state : f.decoder.state ≢ done
  forward : position ≤ f.consumed
  resumed : whole ≡ feed_from f.decoder f.consumed (drop (f.consumed - position) source ++ more)

-- A piece that stalled behind its first byte, or two, stalls the same way with them in front.
Resumes-one :
    (f : Fed) (position v : ℕ) (source more : Bytes) (whole whole' : Fed)
    → whole ≡ whole'
    → Resumes f (position + 1) source more whole'
    → Resumes f position (v ∷ source) more whole
Resumes-one f position v source more whole whole' h r =
    let q : suc (f.consumed - (position + 1)) ≡ f.consumed - position = omega (arith, r.forward) in
    record {
      open_state = r.open_state;
      forward = omega (arith, r.forward);
      resumed =
          h ∙ r.resumed ∙ ap (λ k. feed_from f.decoder f.consumed (drop k (v ∷ source) ++ more)) q;
    }

Resumes-two :
    (f : Fed) (position v w : ℕ) (source more : Bytes) (whole whole' : Fed)
    → whole ≡ whole'
    → Resumes f (position + 2) source more whole'
    → Resumes f position (v ∷ w ∷ source) more whole
Resumes-two f position v w source more whole whole' h r =
    let q : suc (suc (f.consumed - (position + 2))) ≡ f.consumed - position =
      omega (arith, r.forward) in
    record {
      open_state = r.open_state;
      forward = omega (arith, r.forward);
      resumed =
          h
          ∙ r.resumed
          ∙ ap (λ k. feed_from f.decoder f.consumed (drop k (v ∷ w ∷ source) ++ more)) q;
    }

Resumes-here :
    (d : Decoder) (position : ℕ) (source more : Bytes)
    → d.state ≢ done
    → Resumes
        (leave incomplete d position)
        position
        source
        more
        (feed_from d position (source ++ more))
Resumes-here d position source more o =
    let q : 0 ≡ position - position = omega arith in
    record {
      open_state = o;
      forward = omega arith;
      resumed = ap (λ k. feed_from d position (drop k source ++ more)) q;
    }

after_round-Resumes :
    (d : Decoder) (r : Round) (position v : ℕ) (rest more : Bytes) (one_on two_on : Decoder → Fed)
    → d.state ≢ done
    → RoundIsStable r d.state d v rest more
    → ((e : Decoder)
        → e.state ≢ done
        → (one_on e).result ≡ incomplete
        → Resumes (one_on e) (position + 1) rest more (feed_from e (position + 1) (rest ++ more)))
    → ((e : Decoder)
        → e.state ≢ done
        → rest ≢ []
        → round d.state d v (rest ++ more) ≡ two e
        → (two_on e).result ≡ incomplete
        → Resumes (two_on e) position (v ∷ rest) more (feed_from d position (v ∷ rest ++ more)))
    → (after_round r position one_on two_on).result ≡ incomplete
    → Resumes
        (after_round r position one_on two_on)
        position
        (v ∷ rest)
        more
        (feed_from d position (v ∷ rest ++ more))
unfolding after_round
after_round-Resumes d (one e) position v rest more one_on two_on o k h1 h2 h =
    Resumes-one _ position v rest more _ _ (feed_from-one d e position v (rest ++ more) k.0)
      (h1 e k.1 h)
after_round-Resumes d (two e) position v rest more one_on two_on o k h1 h2 h = h2 e k.2 k.0 k.1 h
after_round-Resumes d (wait e) position v rest more one_on two_on o k h1 h2 h =
    rw k.0 (Resumes-here d position (v ∷ rest) more o)
after_round-Resumes d (finish e) position v rest more one_on two_on o k h1 h2 h = cc
after_round-Resumes d (fail r e) position v rest more one_on two_on o k h1 h2 h = ground arith
after_round-Resumes d (emit e n) position v rest more one_on two_on o k h1 h2 h = cc

feed_from-Resumes :
    (d : Decoder) (position : ℕ) (source more : Bytes)
    → d.state ≢ done
    → (feed_from d position source).result ≡ incomplete
    → Resumes
        (feed_from d position source)
        position
        source
        more
        (feed_from d position (source ++ more))
unfolding feed_from
feed_from-Resumes d position [] more o h = Resumes-here d position [] more o
feed_from-Resumes d position (v ∷ []) more o h =
    after_round-Resumes d (round d.state d v []) position v [] more _ _ o
      (round-stable d.state d v [] more refl) (λ e o' h'. Resumes-here e (position + 1) [] more o')
      (λ e o' n q h'. absurd (n refl)) h
feed_from-Resumes d position (v ∷ w ∷ rest) more o h =
    after_round-Resumes d (round d.state d v (w ∷ rest)) position v (w ∷ rest) more _ _ o
      (round-stable d.state d v (w ∷ rest) more refl)
      (λ e o' h'. feed_from-Resumes e (position + 1) (w ∷ rest) more o' h')
      (λ e o' n q h'.
        Resumes-two _ position v w rest more _ _ (feed_from-two d e position v w (rest ++ more) q)
          (feed_from-Resumes e (position + 2) rest more o' h'))
      h

-- The loop at a later position: everything but an error's `consumed` is moved on.
abbrev shift_span : ℕ → Option ℕ → Option ℕ
shift_span n none = none
shift_span n (some offset) = some (n + offset)

abbrev pub shift : ℕ → Fed → Fed
shift n f = record f {
  consumed = if is_failure f.result then f.consumed else n + f.consumed;
  body_data = shift_span n f.body_data;
}

after_round-shift :
    (r : Round) (n position : ℕ) (one_on two_on one_on' two_on' : Decoder → Fed)
    → ((e : Decoder) → one_on' e ≡ shift n (one_on e))
    → ((e : Decoder) → two_on' e ≡ shift n (two_on e))
    → ((s : Result) (e : Decoder) → r ≡ fail s e → is_failure s ≡ true)
    → after_round r (n + position) one_on' two_on' ≡ shift n (after_round r position one_on two_on)
unfolding after_round
after_round-shift (one e) n position one_on two_on one_on' two_on' h1 h2 k = h1 e
after_round-shift (two e) n position one_on two_on one_on' two_on' h1 h2 k = h2 e
after_round-shift (wait e) n position one_on two_on one_on' two_on' h1 h2 k = refl
after_round-shift (finish e) n position one_on two_on one_on' two_on' h1 h2 k = ground arith
after_round-shift (fail r e) n position one_on two_on one_on' two_on' h1 h2 k =
    ground (arith, k r e refl)
after_round-shift (emit e m) n position one_on two_on one_on' two_on' h1 h2 k = ground arith

round-fails :
    (d : Decoder) (v : ℕ) (rest : Bytes) (r : Round) (s : Result) (e : Decoder)
    → RoundIsStable r d.state d v rest []
    → r ≡ fail s e
    → is_failure s ≡ true
round-fails d v rest (fail s' e') s e k h = ground arith
round-fails d v rest (one e') s e k h = cc
round-fails d v rest (two e') s e k h = cc
round-fails d v rest (wait e') s e k h = cc
round-fails d v rest (finish e') s e k h = cc
round-fails d v rest (emit e' n) s e k h = cc

feed_from-shift :
    (d : Decoder) (n position at : ℕ) (source : Bytes)
    → at ≡ n + position
    → feed_from d at source ≡ shift n (feed_from d position source)
unfolding feed_from
feed_from-shift d n position at [] q = rw q
feed_from-shift d n position at (v ∷ []) q = rw q (
    after_round-shift (round d.state d v []) n position _ _ _ _ (λ e. ground arith)
      (λ e. ground arith)
      (λ s e. round-fails d v [] (round d.state d v []) s e (round-stable d.state d v [] [] refl)))
feed_from-shift d n position at (v ∷ w ∷ rest) q = rw q (
    after_round-shift (round d.state d v (w ∷ rest)) n position _ _ _ _
      (λ e. feed_from-shift e n (position + 1) (n + position + 1) (w ∷ rest) (omega arith))
      (λ e. feed_from-shift e n (position + 2) (n + position + 2) rest (omega arith))
      (λ s e.
        round-fails d v (w ∷ rest) (round d.state d v (w ∷ rest)) s e
          (round-stable d.state d v (w ∷ rest) [] refl)))

feed-open : (d : Decoder) (source : Bytes) → d.state ≢ done → feed d source ≡ feed_from d 0 source
unfolding feed
feed-open d source o = ground arith

feed-stalled-open :
    (d : Decoder) (source : Bytes) → (feed d source).result ≡ incomplete → d.state ≢ done
unfolding feed
feed-stalled-open d source h e = ground arith

take_up :
    (e : Decoder) (n : ℕ) (source more : Bytes)
    → e.state ≢ done
    → feed_from e n (drop (n - 0) source ++ more) ≡ shift n (feed e (drop n source ++ more))
take_up e n source more o =
    let q : n - 0 ≡ n = omega arith in
    ap (λ k. feed_from e n (drop k source ++ more)) q
    ∙ feed_from-shift e n 0 n (drop n source ++ more) (omega arith)
    ∙ ap (shift n) (sym (feed-open e (drop n source ++ more) o))

-- A body that arrives in pieces decodes as it would in one: where `feed` asks for more input,
-- feeding the whole input gives what feeding the rest gives, the bytes that were not consumed in
-- front of it, with the consumed count and the offset of the body span moved on by what the first
-- call consumed (the consumed count of an error is 0 in both).
pub chunked_feed-append :
    (d : Decoder) (source more : Bytes)
    → (feed d source).result ≡ incomplete
    → feed d (source ++ more)
      ≡ shift
          (feed d source).consumed
          (feed (feed d source).decoder (drop (feed d source).consumed source ++ more))
chunked_feed-append d source more h =
    let o : d.state ≢ done = feed-stalled-open d source h in
    let f = feed_from d 0 source in
    let r = feed_from-Resumes d 0 source more o (rw (feed-open d source o) at h) in
    rw (feed-open d source o, feed-open d (source ++ more) o)
      (r.resumed ∙ take_up f.decoder f.consumed source more r.open_state)
