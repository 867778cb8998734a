-- ===== src/Tests/RequestBody.antt =====
-- The byte queue with counters that are about to wrap.
use ckarta.Prelude.{[], ◌∷◌, false, arith}
use ckarta.Http.Bytes.{codes}
use ckarta.Http.RequestBody.{RequestBody, init}
use ckarta.Http.RequestBody.Fifo.{IsValid}
use ckarta.Http.RequestBody.Order.{
  writing, reading, ending, IsInOrder, run, begin, run-init-IsInOrder,
}

-- Two bytes are unread, the first at the last index and the second at index 0.
abbrev wrapped : RequestBody
wrapped = record {
  head = 1;
  tail = 0xffffffffffffffff;
  eof = false;
  error = false;
  buffer = λ i. i;
}

wrapped-IsValid : IsValid wrapped
wrapped-IsValid = ground arith

run-init-IsInOrder_example :
    IsInOrder
      (run (begin (init wrapped)) (writing (codes "abc") ∷ reading 2 ∷ ending ∷ reading 5 ∷ []))
run-init-IsInOrder_example =
    run-init-IsInOrder wrapped (writing (codes "abc") ∷ reading 2 ∷ ending ∷ reading 5 ∷ [])
