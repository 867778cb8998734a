-- ===== src/Tests/Completion.antt =====
-- A queue with one record, one that is full, and one that is closed.
use ckarta.Prelude.{◌≡◌, refl, false, [], ◌∷◌, some, arith}
use ckarta.Status.{minus_one, ok}
use ckarta.Error.{pos}
use ckarta.Completion.Queue.{Completion, Queue, System, WakeUp, push, push_wait, pop}
use ckarta.Completion.Queue.Fifo.{IsValid, contents, fifo_push, fifo_pop, queue-fifo}
use ckarta.Completion.Queue.Waiting.{Waits, ready, waits, push_wait-Waits}

abbrev done : Completion
done = record {
  request_id = 8;
  owner_token = 9;
  lifetime_token = 10;
  cycle_id = 3;
  result = pos 0;
  status = pos 200;
}

abbrev one_left : Queue
one_left = record { entries = λ i. done; head = 63; tail = 0; count = 1; closed = false }

abbrev full : Queue
full = record { entries = λ i. done; head = 5; tail = 5; count = 64; closed = false }

abbrev all_well : System
all_well = record {
  lock = ok;
  unlock = ok;
  signal_not_full = ok;
  broadcast_not_full = ok;
  signal_notification = ok;
}

-- The notification cannot be signalled.
abbrev unheard : System
unheard = record all_well { signal_notification = minus_one }

one_left-IsValid : IsValid one_left
one_left-IsValid = ground arith

abbrev woken : WakeUp
woken = record { result = ok; queue = one_left }

full-Waits : Waits full (woken ∷ []) one_left
full-Waits = waits refl refl (ready refl)

full_wait_ends : push_wait all_well full done (woken ∷ []) ≡ some (push all_well one_left done)
full_wait_ends = push_wait-Waits all_well done refl full-Waits

queue-fifo_example :
    let (p, status) = push unheard one_left done in
    let (left, answer, r?) = pop unheard one_left in
    ((contents p, status) ≡ fifo_push unheard (contents one_left) one_left.closed done)
    × (p.closed ≡ one_left.closed)
    × ((contents left, answer, r?) ≡ fifo_pop unheard (contents one_left))
    × (left.closed ≡ one_left.closed)
queue-fifo_example = queue-fifo unheard one_left done one_left-IsValid
