-- ===== src/Output/Response/States.antt =====
-- The response as a state machine: its invariant, and the states that end it.
use ckarta.Prelude.{ℕ, ◌≤◌, ◌≡◌, ◌≢◌, ◌⊎◌, true, List, [], ◌∷◌, Bytes, length, length-append, arith}
use ckarta.Status.{Status, minus_one}
use ckarta.Output.Response.{
  Response, new, finished, failed, body_buffer_bytes, size_max, init, set_status,
  set_content_length, set_connection_close, reset, commit, write_body, finish,
}

-- The operations that change a response, with their arguments.
pub data Op : Type 0 where
  status_set length_set close_set : ℕ → Op
  is_reset committing finishing : Op
  written : Bytes → Op

pub apply : Response → Op → Response × Status
apply r (status_set n) = set_status r n
apply r (length_set n) = set_content_length r n
apply r (close_set n) = set_connection_close r n
apply r is_reset = reset r
apply r committing = commit r
apply r finishing = finish r
apply r (written source) = write_body r source

pub run : Response → List Op → Response
run r [] = r
run r (op ∷ ops) = run (apply r op).0 ops

-- The body fits its buffer, the status is always one that can be sent, no body is stored before the commit, and a finished
-- response has the length that it announced.
pub record IsValid (r : Response) : Type 0 where
  pub body_fits : length r.body ≤ body_buffer_bytes
  pub status_fits : (200 ≤ r.status) × (r.status ≤ 599)
  pub length_fits : r.content_length ≤ size_max
  pub no_early_body : r.state ≡ new → r.body ≡ []
  pub announced :
      r.state ≡ finished → r.content_length_set ≡ true → length r.body ≡ r.content_length

init-IsValid : IsValid init
unfolding init
init-IsValid = ground arith

pub apply-IsValid : (r : Response) (op : Op) → IsValid r → IsValid (apply r op).0
unfolding apply set_status set_content_length set_connection_close reset commit write_body finish
apply-IsValid r (status_set n) v = ground arith
apply-IsValid r (length_set n) v = ground arith
apply-IsValid r (close_set n) v = ground arith
apply-IsValid r is_reset v = ground arith
apply-IsValid r committing v = ground arith
apply-IsValid r finishing v = ground arith
apply-IsValid r (written source) v = ground (arith, length-append r.body source)

run-IsValid : (r : Response) (ops : List Op) → IsValid r → IsValid (run r ops)
unfolding run
run-IsValid r [] v = v
run-IsValid r (op ∷ ops) v = run-IsValid (apply r op).0 ops (apply-IsValid r op v)

-- After any sequence of operations on a new response, refused ones included, the body fits its
-- buffer, the status is between 200 and 599, there is no body before the commit, and a finished
-- response whose length was set has a body of exactly that length.
pub run-init-IsValid : (ops : List Op) → IsValid (run init ops)
run-init-IsValid ops = run-IsValid init ops init-IsValid

-- Once a response is finished or has failed, every operation answers -1 and changes nothing.
pub apply-ended :
    (r : Response) (op : Op)
    → (r.state ≡ finished) ⊎ (r.state ≡ failed)
    → apply r op ≡ (r, minus_one)
unfolding apply set_status set_content_length set_connection_close reset commit write_body finish
apply-ended r (status_set n) e = ground arith
apply-ended r (length_set n) e = ground arith
apply-ended r (close_set n) e = ground arith
apply-ended r is_reset e = ground arith
apply-ended r committing e = ground arith
apply-ended r finishing e = ground arith
apply-ended r (written source) e = ground arith

-- Once it is committed, what the headers say stays: no operation changes its status, its length or
-- its close flag, and it never becomes new again.
pub apply-committed :
    (r : Response) (op : Op)
    → r.state ≢ new
    → let d = (apply r op).0 in
      (d.status ≡ r.status)
      × (d.content_length ≡ r.content_length)
      × (d.content_length_set ≡ r.content_length_set)
      × (d.connection_close ≡ r.connection_close)
      × (d.state ≢ new)
unfolding apply set_status set_content_length set_connection_close reset commit write_body finish
apply-committed r (status_set n) e = ground arith
apply-committed r (length_set n) e = ground arith
apply-committed r (close_set n) e = ground arith
apply-committed r is_reset e = ground arith
apply-committed r committing e = ground arith
apply-committed r finishing e = ground arith
apply-committed r (written source) e = ground arith
