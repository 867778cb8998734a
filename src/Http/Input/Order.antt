-- ===== src/Http/Input/Order.antt =====
-- The connection as a stream: calls of `ck_http_input_feed`, each with what has arrived.
use ckarta.Prelude.{
  ℕ, ◌≡◌, ◌≢◌, refl, sym, ap, ◌∙◌, true, false, [], ◌++◌, append_assoc, append-nil, Bytes, take,
  drop, arith, Bool-cases, inl, inr,
}
use ckarta.Http.Parser
use ckarta.Http.Parser.Feed as HeadFeed
use ckarta.Http.Parser.Feed.Bounds as HeadBounds
use ckarta.Http.Input.{
  Input, Fed, incomplete, bad_request, too_large, init, feed, feed_body, behind_head, head_done,
  ack_body, leave, request_or,
}
use ckarta.Http.Input.Measured.{
  Round, after, IsInOrder, take-add, feed_body-IsInOrder, head_done-IsInOrder,
}

-- What the next round has to make of the stream and of what was delivered.
abbrev Goes : Round → Bytes → Bytes → Bytes → Type 0
Goes r stream delivered source =
    IsInOrder r.input (stream ++ take r.consumed source) (delivered ++ r.delivered)

after-leave :
    (r : ckarta.Http.Input.Result) (i : Input) (n : ℕ)
    → i.pending_body ≡ []
    → after (leave r i n) ≡ record { input = i; consumed = n; delivered = [] }
unfolding after ack_body
after-leave r i n p = ground arith

-- A head that is still open.
open-Goes :
    (r : ckarta.Http.Input.Result) (i : Input) (f : HeadFeed.Fed) (stream delivered source : Bytes)
    → IsInOrder i stream delivered
    → i.header_complete ≡ false
    → HeadBounds.FedIsSafe i.parser source f
    → f.result ≢ Parser.header_too_large
    → Goes (after (leave r (record i { parser = f.parser }) f.consumed)) stream delivered source
open-Goes r i f stream delivered source v h safe small =
    let (s, d, c) = v.before h in
    rw (after-leave r (record i { parser = f.parser }) f.consumed v.idle) (record {
      valid = safe.valid;
      idle = v.idle;
      before =
          λ x. (ap (λ b. b ++ take f.consumed source) s ∙ sym (safe.stored small), rw d refl, c);
      measured = λ x y. ground arith;
      absent = λ x y. ground arith;
    })

behind_head-Goes :
    (i : Input) (f : HeadFeed.Fed) (stream delivered source : Bytes)
    → IsInOrder i stream delivered
    → i.header_complete ≡ false
    → HeadBounds.FedIsSafe i.parser source f
    → (q : Parser.Result) → f.result ≡ q
    → (behind_head q i f source).result ≢ too_large
    → Goes (after (behind_head q i f source)) stream delivered source
unfolding behind_head
behind_head-Goes i f stream delivered source v h safe Parser.incomplete e t =
    open-Goes incomplete i f stream delivered source v h safe (ground arith)
behind_head-Goes i f stream delivered source v h safe Parser.bad_request e t =
    open-Goes bad_request i f stream delivered source v h safe (ground arith)
behind_head-Goes i f stream delivered source v h safe Parser.header_too_large e t = absurd (t refl)
behind_head-Goes i f stream delivered source v h safe Parser.complete e t =
    let (s, d, c) = v.before h in
    let j = record i { parser = f.parser; request = request_or f.request i.request } in
    let (n, count, order) = head_done-IsInOrder j source f.consumed safe.valid v.idle c in
    let r = after (head_done j f.consumed (drop f.consumed source)) in
    let stored : f.parser.buffer ≡ stream ++ take f.consumed source =
      safe.stored (ground arith) ∙ ap (λ b. b ++ take f.consumed source) (sym s) in
    let moved : stream ++ take r.consumed source
        ≡ f.parser.buffer ++ take n (drop f.consumed source) =
      ap (λ k. stream ++ take k source) count
      ∙ ap (◌++◌ stream) (take-add f.consumed n source)
      ∙ sym (append_assoc stream (take f.consumed source) (take n (drop f.consumed source)))
      ∙ ap (λ b. b ++ take n (drop f.consumed source)) (sym stored) in
    rw (moved, d) order

feed_done :
    (i : Input) (source : Bytes)
    → i.pending_body ≡ []
    → i.message_complete ≡ true
    → feed i source ≡ leave ckarta.Http.Input.complete i 0
unfolding feed
feed_done i source p c = ground arith

feed_head :
    (i : Input) (source : Bytes)
    → i.pending_body ≡ []
    → i.message_complete ≡ false
    → i.header_complete ≡ false
    → feed i source
      ≡ behind_head (HeadFeed.feed i.parser source).result i (HeadFeed.feed i.parser source) source
unfolding feed
feed_head i source p c h = rw (p, c, h) refl

feed-body :
    (i : Input) (source : Bytes)
    → i.pending_body ≡ []
    → i.message_complete ≡ false
    → i.header_complete ≡ true
    → feed i source ≡ feed_body i.request.body_mode i 0 source
unfolding feed
feed-body i source p c h = rw (p, c, h) refl

pub feed-IsInOrder :
    (i : Input) (stream delivered source : Bytes)
    → IsInOrder i stream delivered
    → (feed i source).result ≢ too_large
    → Goes (after (feed i source)) stream delivered source
feed-IsInOrder i stream delivered source v t = elim (Bool-cases i.message_complete) [
  | inl c ↦
      rw
        (
          feed_done i source v.idle c,
          after-leave ckarta.Http.Input.complete i 0 v.idle,
          append-nil stream,
          append-nil delivered,
        )
        v
  | inr c ↦ elim (Bool-cases i.header_complete) [
    | inl h ↦
        let (n, count, order) =
          feed_body-IsInOrder i.request.body_mode i stream delivered source 0 refl h c v in
        let e : (after (feed_body i.request.body_mode i 0 source)).consumed ≡ n =
          omega (arith, count) in
        rw (feed-body i source v.idle c h, e) order
    | inr h ↦
        let f = HeadFeed.feed i.parser source in
        let e = feed_head i source v.idle c h in
        rw e (
          behind_head-Goes i f stream delivered source v h
            (HeadBounds.head_feed-FedIsSafe i.parser source v.valid) f.result refl
            (λ x. t (ap (λ g. g.result) e ∙ x)))
  ]
]

-- The rounds of one request from `init` on, each with any input: the stream is what the connection
-- has moved on by. A round that answers TOO_LARGE ends them.
pub data Flow : Input → Bytes → Bytes → Type 0 where
  start : Flow init [] []
  round :
      {i : Input} {stream delivered : Bytes}
      → Flow i stream delivered
      → (source : Bytes) → (feed i source).result ≢ too_large
      → Flow
          (after (feed i source)).input
          (stream ++ take (after (feed i source)).consumed source)
          (delivered ++ (after (feed i source)).delivered)

init-IsInOrder : IsInOrder init [] []
unfolding init HeadFeed.init
init-IsInOrder = record {
  valid = ground arith;
  idle = refl;
  before = λ x. (refl, refl, refl);
  measured = λ x y. ground arith;
  absent = λ x y. ground arith;
}

-- However a request arrives in pieces: until its head is complete, no body is delivered. Behind a
-- head with a Content-Length, the stream is that head followed by the bytes delivered, in order and
-- none twice; their number and the remaining length make the Content-Length, and the message is
-- complete exactly when nothing remains. Behind a head without a body the stream ends with the head.
pub Flow-IsInOrder :
    {i : Input} {stream delivered : Bytes} → Flow i stream delivered → IsInOrder i stream delivered
Flow-IsInOrder start = init-IsInOrder
Flow-IsInOrder (round {i} {stream} {delivered} flow source t) =
    feed-IsInOrder i stream delivered source (Flow-IsInOrder flow) t
