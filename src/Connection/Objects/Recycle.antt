-- ===== src/Connection/Objects/Recycle.antt =====
-- Keep-alive: when `ck_connection_http_recycle` starts over, and what it leaves.
use ckarta.Prelude.{
  ℕ, ◌≡◌, ◌≢◌, ◌⊎◌, inl, inr, refl, ap, ◌∙◌, true, false, ◌||◌, [], some, drop, arith,
}
use ckarta.Status.{ok}
use ckarta.Connection.{Connection, state}
use ckarta.Connection.Word.{open_state}
use ckarta.Connection.Objects.{Objects, http_recycle, recycle_with, may_go_on, body_finished, put}
use ckarta.Http.Input
use ckarta.Http.Reader
use ckarta.Http.Reader.Drive
use ckarta.Http.RequestBody
use ckarta.Http.RequestBody.Fifo.{contents}
use ckarta.Http.RequestBody.Ring.{ring}
use ckarta.Output.Response
use ckarta.Output.Writer

-- A connection with its four blocks, whose reader writes to its body queue.
pub record IsLinked (o : Objects) (c : Connection) (reader body writer response : ℕ) : Type 0 where
  pub has_reader : c.http_reader ≡ some reader
  pub has_body : c.http_request_body ≡ some body
  pub has_writer : c.http_writer ≡ some writer
  pub has_response : c.http_response ≡ some response
  pub queue_is : (o.readers reader).body_queue ≡ some body

-- An open connection whose request is over on both sides.
pub record IsOver (o : Objects) (c : Connection) (reader body writer response : ℕ) : Type 0 where
  pub is_open : state c ≡ open_state
  pub head_complete : (o.readers reader).input.header_complete ≡ true
  pub request_complete : (o.readers reader).input.message_complete ≡ true
  pub stays_open : (o.readers reader).input.request.connection_close_required ≡ false
  pub response_finished : Response.is_finished (o.responses response).state ≡ true
  pub response_stays_open : (o.responses response).connection_close ≡ false
  pub all_sent : Writer.buffered_bytes (o.writers writer) ≡ 0
  pub all_read : RequestBody.is_finished (o.bodies body) ≡ true

-- The objects `p` are ready for the next request, whose bytes that have arrived are kept.
pub record IsFresh (o p : Objects) (reader body response : ℕ) : Type 0 where
  pub input_is_new : (p.readers reader).input ≡ Input.init
  pub bytes_kept :
      drop (p.readers reader).begin (p.readers reader).bytes
      ≡ drop (o.readers reader).begin (o.readers reader).bytes
  pub queue_kept : (p.readers reader).body_queue ≡ some body
  pub body_empty : contents (p.bodies body) ≡ []
  pub body_open : ((p.bodies body).eof || (p.bodies body).error) ≡ false
  pub response_is_new : p.responses response ≡ Response.init
  pub writers_kept : p.writers ≡ o.writers

http_recycle-linked :
    (o : Objects) (c : Connection) (reader body writer response : ℕ)
    → IsLinked o c reader body writer response
    → http_recycle o c ≡ recycle_with o c reader writer response
unfolding http_recycle
http_recycle-linked o c reader body writer response l =
    ground (arith, l.has_reader, l.has_writer, l.has_response)

put_here {ℓ} : {A : Type ℓ} (store : ℕ → A) (at : ℕ) (x : A) → put store at x at ≡ x
unfolding put
put_here store at x = ground arith

recycle_with-ok :
    (o : Objects) (c : Connection) (reader body writer response : ℕ)
    → IsLinked o c reader body writer response
    → (recycle_with o c reader writer response).1 ≡ ok
    → IsOver o c reader body writer response
unfolding recycle_with may_go_on body_finished Drive.request_of Drive.next_request Input.request_of
recycle_with-ok o c reader body writer response l e = ground (arith, l.has_body, l.queue_is)

-- The objects that a recycling leaves.
abbrev recycled : Objects → ℕ → ℕ → ℕ → Objects
recycled o reader body response = record o {
  readers = put o.readers reader (record (o.readers reader) {
    input = Input.next_request (o.readers reader).input;
    bytes = drop (o.readers reader).begin (o.readers reader).bytes;
    begin = 0;
  });
  bodies = Reader.on_queue RequestBody.init (some body) o.bodies;
  responses = put o.responses response Response.init;
}

recycle_with-recycled :
    (o : Objects) (c : Connection) (reader body writer response : ℕ)
    → IsLinked o c reader body writer response
    → (recycle_with o c reader writer response ≡ (recycled o reader body response, ok))
      ⊎ (((recycle_with o c reader writer response).0 ≡ o)
          × ((recycle_with o c reader writer response).1 ≢ ok))
unfolding recycle_with Drive.request_of Drive.next_request
recycle_with-recycled o c reader body writer response l = ground (arith, l.queue_is)

recycle_with-over :
    (o : Objects) (c : Connection) (reader body writer response : ℕ)
    → IsLinked o c reader body writer response
    → IsOver o c reader body writer response
    → (recycle_with o c reader writer response).1 ≡ ok
unfolding recycle_with may_go_on body_finished Drive.request_of Drive.next_request Input.request_of
recycle_with-over o c reader body writer response l v = ground (
  arith, l.has_body, v.is_open, v.head_complete, v.request_complete, v.stays_open,
  v.response_finished, v.response_stays_open, v.all_sent, v.all_read,
)

body_reset :
    (bodies : ℕ → RequestBody.RequestBody) (body : ℕ)
    → Reader.on_queue RequestBody.init (some body) bodies body ≡ RequestBody.init (bodies body)
unfolding Reader.on_queue Reader.set_queue
body_reset bodies body = ground arith

recycled-IsFresh :
    (o : Objects) (reader body response : ℕ)
    → (o.readers reader).body_queue ≡ some body
    → IsFresh o (recycled o reader body response) reader body response
unfolding Input.next_request Reader.on_queue Reader.set_queue RequestBody.init contents
    RequestBody.body_used ring
recycled-IsFresh o reader body response q =
    let r = put_here o.readers reader (record (o.readers reader) {
      input = Input.next_request (o.readers reader).input;
      bytes = drop (o.readers reader).begin (o.readers reader).bytes;
      begin = 0;
    }) in
    let b = body_reset o.bodies body in
    record {
      input_is_new = ap (λ x. x.input) r;
      bytes_kept = ap (λ x. drop x.begin x.bytes) r;
      queue_kept = ap (λ x. x.body_queue) r ∙ q;
      body_empty = ap contents b;
      body_open = ap (λ x. x.eof || x.error) b;
      response_is_new = put_here o.responses response Response.init;
      writers_kept = refl;
    }

-- `ck_connection_http_recycle` on a connection that has its four objects answers 0 exactly if the
-- connection is open, the request complete and read to its end, the response finished and sent, and
-- neither asks for a close. Then the input, the response and the queue are new, and the bytes of the
-- next request that the reader has are still there. Otherwise none of the objects changes.
pub http_recycle-IsFresh :
    (o : Objects) (c : Connection) (reader body writer response : ℕ)
    → IsLinked o c reader body writer response
    → let (p, s) = http_recycle o c in
      ((s ≡ ok) × IsOver o c reader body writer response × IsFresh o p reader body response)
      ⊎ ((s ≢ ok) × (p ≡ o) × ¬ IsOver o c reader body writer response)
http_recycle-IsFresh o c reader body writer response l =
    rw (http_recycle-linked o c reader body writer response l)
      (elim (recycle_with-recycled o c reader body writer response l) [
        | inl e ↦ inl (
          ap (λ x. x.1) e,
          recycle_with-ok o c reader body writer response l (ap (λ x. x.1) e),
          rw e (recycled-IsFresh o reader body response l.queue_is),
        )
        | inr (same, n) ↦
            inr (n, same, λ v. n (recycle_with-over o c reader body writer response l v))
      ])
