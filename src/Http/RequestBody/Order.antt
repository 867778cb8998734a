-- ===== src/Http/RequestBody/Order.antt =====
-- The bytes of a request body on their way from the connection's thread to the servlet's.
use ckarta.Prelude.{ℕ, ◌≡◌, refl, sym, ap, ◌∙◌, List, [], ◌∷◌, ◌++◌, append_assoc, Bytes, arith}
use ckarta.Http.RequestBody.{RequestBody, body_used, write, read, init, mark_eof, mark_error}
use ckarta.Http.RequestBody.Ring.{ring}
use ckarta.Http.RequestBody.Fifo.{
  IsValid, contents, taken, write-IsValid, read-IsValid, write-contents, read-contents,
}

-- What the two threads do with the queue.
pub data Op : Type 0 where
  writing : Bytes → Op
  reading : ℕ → Op
  ending failing : Op

-- The queue, the bytes that it has taken so far and those that it has given.
pub record Trace : Type 0 where
  pub queue : RequestBody
  pub sent : Bytes
  pub received : Bytes

pub step : Trace → Op → Trace
unfolding mark_eof mark_error
step t (writing source) =
    let (result, c, n) = write t.queue source in
    record { queue = c; sent = t.sent ++ taken result source; received = t.received }
step t (reading capacity) =
    let (result, c, bytes) = read t.queue capacity in
    record { queue = c; sent = t.sent; received = t.received ++ bytes }
step t ending = record t { queue = mark_eof t.queue }
step t failing = record t { queue = mark_error t.queue }

pub run : Trace → List Op → Trace
run t [] = t
run t (op ∷ ops) = run (step t op) ops

abbrev pub begin : RequestBody → Trace
begin b = record { queue = b; sent = []; received = [] }

-- The queue is valid, and what it took is what it gave with what it holds.
pub record IsInOrder (t : Trace) : Type 0 where
  pub valid : IsValid t.queue
  pub order : t.sent ≡ t.received ++ contents t.queue

step-IsInOrder : (t : Trace) (op : Op) → IsInOrder t → IsInOrder (step t op)
unfolding step contents mark_eof mark_error
step-IsInOrder t (writing source) k = record {
  valid = write-IsValid t.queue source k.valid;
  order =
      ap (λ xs. xs ++ taken (write t.queue source).0 source) k.order
      ∙ append_assoc t.received (contents t.queue) (taken (write t.queue source).0 source)
      ∙ ap (◌++◌ t.received) (sym (write-contents t.queue source k.valid));
}
step-IsInOrder t (reading capacity) k = record {
  valid = read-IsValid t.queue capacity k.valid;
  order =
      k.order
      ∙ ap (◌++◌ t.received) (read-contents t.queue capacity k.valid)
      ∙ sym
          (append_assoc t.received (read t.queue capacity).2 (contents (read t.queue capacity).1));
}
step-IsInOrder t ending k = record { valid = ground arith; order = k.order }
step-IsInOrder t failing k = record { valid = ground arith; order = k.order }

run-IsInOrder : (t : Trace) (ops : List Op) → IsInOrder t → IsInOrder (run t ops)
unfolding run
run-IsInOrder t [] k = k
run-IsInOrder t (op ∷ ops) k = run-IsInOrder (step t op) ops (step-IsInOrder t op k)

begin-IsInOrder : (b : RequestBody) → IsInOrder (begin (init b))
unfolding init contents body_used ring
begin-IsInOrder b = record { valid = ground arith; order = refl }

-- Whatever calls follow `init`, the servlet reads the bytes that were accepted, each once and in
-- their order: those accepted so far are those read so far and those that still stand in the queue.
pub run-init-IsInOrder : (b : RequestBody) (ops : List Op) → IsInOrder (run (begin (init b)) ops)
run-init-IsInOrder b ops = run-IsInOrder (begin (init b)) ops (begin-IsInOrder b)
