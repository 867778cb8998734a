-- ===== src/Http/Input/Measured.antt =====
-- The bytes of the connection on their way through the input, up to the end of a measured body.
use ckarta.Prelude.{
  ℕ, zero, suc, ◌+◌, ◌-◌, ◌≤◌, ◌≡◌, ◌≢◌, refl, ap, ◌∙◌, true, false, [], ◌∷◌, ◌++◌, append_assoc,
  append-nil, Bytes, none, some, ltb, ◌==◌, if◌then◌else◌, length, length-append, length-take, take,
  drop, arith, Bool-cases, inl, inr,
}
use ckarta.Http.Bytes.{is_empty}
use ckarta.Http.Chunked.Feed as ChunkedFeed
use ckarta.Http.Parser
use ckarta.Http.Parser.Feed.Bounds as HeadBounds
use ckarta.Http.Input.{
  Input, Fed, Result, incomplete, body, complete, bad_request, too_large, init, feed, feed_body,
  feed_measured, behind_chunked, behind_head, head_done, head_read, ack_body, has_no_body, leave,
}

-- What a caller that takes every span gets of one `feed`: the new input, how far the connection
-- moves on, and the bytes that it takes.
pub record Round : Type 0 where
  pub input : Input
  pub consumed : ℕ
  pub delivered : Bytes

unfoldable pub after : Fed → Round
after f = elim (ack_body f.input) [
  | none ↦ record { input = f.input; consumed = f.consumed; delivered = [] }
  | some (i, n) ↦ record { input = i; consumed = f.consumed + n; delivered = f.body_span }
]

pub record IsInOrder (i : Input) (stream delivered : Bytes) : Type 0 where
  pub valid : HeadBounds.IsValid i.parser
  pub idle : i.pending_body ≡ []
  pub before :
      i.header_complete ≡ false
      → (stream ≡ i.parser.buffer) × (delivered ≡ []) × (i.message_complete ≡ false)
  pub measured :
      i.header_complete ≡ true
      → i.request.body_mode ≡ Parser.content_length
      → (stream ≡ i.parser.buffer ++ delivered)
        × (length delivered + i.content_length_remaining ≡ i.request.body_bytes)
        × (i.message_complete ≡ (i.content_length_remaining == 0))
  pub absent :
      i.header_complete ≡ true
      → i.request.body_mode ≡ Parser.no_body
      → (stream ≡ i.parser.buffer) × (delivered ≡ []) × (i.message_complete ≡ true)

is_empty-length : (xs : Bytes) → is_empty xs ≡ (length xs == 0)
is_empty-length [] = refl
is_empty-length (x ∷ xs) = ground arith

is_empty_nil : (xs : Bytes) → is_empty xs ≡ true → xs ≡ []
is_empty_nil [] h = refl
is_empty_nil (x ∷ xs) h = cc

pub take-add : (n m : ℕ) (xs : Bytes) → take (n + m) xs ≡ take n xs ++ take m (drop n xs)
take-add zero m xs = let e : 0 + m ≡ m = omega arith in rw e refl
take-add (suc n) zero [] = let e : suc n + 0 ≡ suc n = omega arith in rw e refl
take-add (suc n) (suc m) [] = let e : suc n + suc m ≡ suc (n + suc m) = omega arith in rw e refl
take-add (suc n) m (x ∷ xs) =
    let e : suc n + m ≡ suc (n + m) = omega arith in rw e (ap (◌∷◌ x) (take-add n m xs))

length-taken : (n : ℕ) (xs : Bytes) → n ≤ length xs → length (take n xs) ≡ n
length-taken n xs h = omega (arith, length-take n xs)

-- The length of the span that a round takes of `rest`.
abbrev pub span_length : Input → Bytes → ℕ
span_length i rest =
    if ltb i.content_length_remaining (length rest) then i.content_length_remaining else length rest

-- The round in one equation, whether its span is empty or not.
after-feed_measured :
    (i : Input) (rest : Bytes) (consumed : ℕ)
    → i.pending_body ≡ []
    → i.message_complete ≡ false
    → i.content_length_remaining ≢ 0
    → let n = span_length i rest in
      after (feed_measured i consumed rest) ≡ record {
        input = record i {
          content_length_remaining = i.content_length_remaining - n;
          message_complete = i.content_length_remaining == n;
          pending_body = [];
          pending_input_consumed = 0;
          pending_message_complete = false;
        };
        consumed = consumed + n;
        delivered = take n rest;
      }
unfolding feed_measured after ack_body
after-feed_measured i rest consumed p c k =
    let n = span_length i rest in
    let e : is_empty (take n rest) ≡ (n == 0) =
      is_empty-length (take n rest) ∙ ap (λ m. m == 0) (length-taken n rest (ground arith)) in
    ground (arith, e, is_empty_nil (take n rest))

feed_measured-IsInOrder :
    (i : Input) (stream delivered rest : Bytes) (consumed : ℕ)
    → HeadBounds.IsValid i.parser
    → i.pending_body ≡ []
    → i.header_complete ≡ true
    → i.message_complete ≡ false
    → i.request.body_mode ≡ Parser.content_length
    → stream ≡ i.parser.buffer ++ delivered
    → length delivered + i.content_length_remaining ≡ i.request.body_bytes
    → i.content_length_remaining ≢ 0
    → let r = after (feed_measured i consumed rest) in
      let n = span_length i rest in
      (r.consumed ≡ consumed + n)
      × IsInOrder r.input (stream ++ take n rest) (delivered ++ r.delivered)
feed_measured-IsInOrder i stream delivered rest consumed v p h c m s e k =
    let n = span_length i rest in
    let l : length (take n rest) ≡ n = length-taken n rest (ground arith) in
    let t = length-append delivered (take n rest) in
    let le : n ≤ i.content_length_remaining = ground arith in
    rw (after-feed_measured i rest consumed p c k) (
      refl,
      record {
        valid = v;
        idle = refl;
        before = λ x. ground arith;
        measured = λ x y. (
          ap (λ xs. xs ++ take n rest) s ∙ append_assoc i.parser.buffer delivered (take n rest),
          omega (arith, l, t, e, le),
          ground (arith, le),
        );
        absent = λ x y. ground arith;
      },
    )

-- In a mode without a measured body nothing is claimed of the bytes once the head is read.
chunked-IsInOrder :
    (i : Input) (stream delivered : Bytes)
    → HeadBounds.IsValid i.parser
    → i.pending_body ≡ []
    → i.header_complete ≡ true
    → i.request.body_mode ≡ Parser.chunked
    → IsInOrder i stream delivered
chunked-IsInOrder i stream delivered v p h m = record {
  valid = v;
  idle = p;
  before = λ x. ground arith;
  measured = λ x y. ground arith;
  absent = λ x y. ground arith;
}

behind_chunked-kept :
    (i : Input) (rest : Bytes) (consumed : ℕ) (f : ChunkedFeed.Fed)
    → i.pending_body ≡ []
    → let j = (after (behind_chunked i consumed rest f)).input in
      (j.parser ≡ i.parser)
      × (j.pending_body ≡ [])
      × (j.header_complete ≡ i.header_complete)
      × (j.request ≡ i.request)
unfolding behind_chunked after ack_body
behind_chunked-kept i rest consumed f p =
    ground (arith, is_empty_nil (ckarta.Http.Input.span_of f rest))

behind_chunked_forward :
    (i : Input) (rest : Bytes) (consumed : ℕ) (f : ChunkedFeed.Fed)
    → i.pending_body ≡ []
    → consumed ≤ (after (behind_chunked i consumed rest f)).consumed
unfolding behind_chunked after ack_body
behind_chunked_forward i rest consumed f p = ground arith

-- A round of the body, on the input `rest` behind `consumed` bytes of the head.
pub feed_body-IsInOrder :
    (mode : Parser.BodyMode) (i : Input) (stream delivered rest : Bytes) (consumed : ℕ)
    → i.request.body_mode ≡ mode
    → i.header_complete ≡ true
    → i.message_complete ≡ false
    → IsInOrder i stream delivered
    → let r = after (feed_body mode i consumed rest) in
      (n : ℕ) × (r.consumed ≡ consumed + n)
      × IsInOrder r.input (stream ++ take n rest) (delivered ++ r.delivered)
unfolding feed_body
feed_body-IsInOrder Parser.content_length i stream delivered rest consumed m h c v =
    let (s, e, done) = v.measured h m in
    let (count, order) =
      feed_measured-IsInOrder i stream delivered rest consumed v.valid v.idle h c m s e
        (ground arith) in
    (span_length i rest, count, order)
feed_body-IsInOrder Parser.chunked i stream delivered rest consumed m h c v =
    let f = ChunkedFeed.feed i.chunked rest in
    let r = after (behind_chunked i consumed rest f) in
    let (same_parser, idle, headed, same_request) = behind_chunked-kept i rest consumed f v.idle in
    let on = behind_chunked_forward i rest consumed f v.idle in
    (
      r.consumed - consumed,
      omega (arith, on),
      chunked-IsInOrder r.input _ _ (rw same_parser v.valid) idle (headed ∙ h)
          (ap (λ q. q.body_mode) same_request ∙ m),
    )
feed_body-IsInOrder Parser.no_body i stream delivered rest consumed m h c v =
    absurd (ground (arith, v.absent h m))

-- Behind a complete head: the request is known, and nothing of a body is.
head_done_empty :
    (i : Input) (consumed : ℕ) (rest : Bytes)
    → i.pending_body ≡ []
    → has_no_body i.request.body_mode i.request.body_bytes ≡ true
    → after (head_done i consumed rest) ≡ record {
      input = record (head_read i) { message_complete = true };
      consumed = consumed;
      delivered = [];
    }
unfolding head_done after ack_body
head_done_empty i consumed rest p h = ground arith

head_done_body :
    (i : Input) (consumed : ℕ) (rest : Bytes)
    → has_no_body i.request.body_mode i.request.body_bytes ≡ false
    → head_done i consumed rest ≡ feed_body i.request.body_mode (head_read i) consumed rest
unfolding head_done
head_done_body i consumed rest h = rw h refl

pub head_done-IsInOrder :
    (i : Input) (source : Bytes) (consumed : ℕ)
    → HeadBounds.IsValid i.parser
    → i.pending_body ≡ []
    → i.message_complete ≡ false
    → let r = after (head_done i consumed (drop consumed source)) in
      (n : ℕ) × (r.consumed ≡ consumed + n)
      × IsInOrder r.input (i.parser.buffer ++ take n (drop consumed source)) r.delivered
unfolding head_read
head_done-IsInOrder i source consumed v p c =
    elim (Bool-cases (has_no_body i.request.body_mode i.request.body_bytes)) [
      | inl none_there ↦ rw (head_done_empty i consumed (drop consumed source) p none_there) (
        0,
        omega arith,
        rw (append-nil i.parser.buffer) (record {
          valid = v;
          idle = p;
          before = λ x. ground arith;
          measured = λ x y. ground (arith, append-nil i.parser.buffer);
          absent = λ x y. (refl, refl, refl);
        }),
      )
      | inr some_there ↦
          let e = head_done_body i consumed (drop consumed source) some_there in
          let body_follows =
            feed_body-IsInOrder i.request.body_mode (head_read i) i.parser.buffer []
              (drop consumed source) consumed refl refl c
              (record {
                valid = v;
                idle = p;
                before = λ x. ground arith;
                measured = λ x y. ground (arith, append-nil i.parser.buffer);
                absent = λ x y. ground arith;
              }) in
          rw e body_follows
    ]
