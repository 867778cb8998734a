-- ===== src/Completion/Queue/Waiting.antt =====
-- Producers that wait for room, and the close that wakes them.
use ckarta.Prelude.{◌≡◌, ◌∙◌, true, false, not, ◌&&◌, List, [], ◌∷◌, some, ◌==◌, arith}
use ckarta.Status.{code}
use ckarta.Completion.Queue.{
  Completion, Queue, System, WakeUp, is_ok, capacity, push, close, push_wait, wait_loop,
}
use ckarta.Completion.Queue.Fifo.{contents}

-- From a queue on, the waits of a producer succeed until it meets the last queue, the first that
-- has room or is closed.
pub data Waits : Queue → List WakeUp → Queue → Type 0 where
  ready :
      {q : Queue} {wakes : List WakeUp}
      → (not q.closed && q.count == capacity) ≡ false
      → Waits q wakes q
  waits :
      {q last : Queue} {w : WakeUp} {wakes : List WakeUp}
      → (not q.closed && q.count == capacity) ≡ true
      → is_ok w.result ≡ true
      → Waits w.queue wakes last
      → Waits q (w ∷ wakes) last

ready_loop :
    (sys : System) (q : Queue) (r : Completion) (wakes : List WakeUp)
    → is_ok sys.lock ≡ true
    → (not q.closed && q.count == capacity) ≡ false
    → wait_loop sys q r wakes ≡ some (push sys q r)
unfolding wait_loop push
ready_loop sys q r [] h k = ground arith
ready_loop sys q r (w ∷ wakes) h k = ground arith

waiting_loop :
    (sys : System) (q : Queue) (r : Completion) (w : WakeUp) (wakes : List WakeUp)
    → (not q.closed && q.count == capacity) ≡ true
    → is_ok w.result ≡ true
    → wait_loop sys q r (w ∷ wakes) ≡ wait_loop sys w.queue r wakes
unfolding wait_loop
waiting_loop sys q r w wakes h k = ground arith

Waits-loop :
    {q last : Queue} {wakes : List WakeUp} (sys : System) (r : Completion)
    → is_ok sys.lock ≡ true
    → Waits q wakes last
    → wait_loop sys q r wakes ≡ some (push sys last r)
Waits-loop {q} {last} {wakes} sys r h (ready k) = ready_loop sys q r wakes h k
Waits-loop {q} {last} sys r h (waits {w = w} {wakes = wakes} k ok_result more) =
    waiting_loop sys q r w wakes k ok_result ∙ Waits-loop sys r h more

-- A producer that waits returns as soon as it wakes to a queue that has room or is closed, and then
-- with the effect and the answer of `push` on that queue.
pub push_wait-Waits :
    {q last : Queue} {wakes : List WakeUp} (sys : System) (r : Completion)
    → is_ok sys.lock ≡ true
    → Waits q wakes last
    → push_wait sys q r wakes ≡ some (push sys last r)
unfolding push_wait
push_wait-Waits sys r h k = ground (arith, Waits-loop sys r h k)

-- A call of `close` that gets the lock closes the queue, whatever the calls after that answer, and
-- leaves its records: from then on `push` answers 2 and `push_wait` does so without waiting, and
-- neither changes the queue.
pub close-push :
    (sys : System) (q : Queue) (r : Completion) (wakes : List WakeUp)
    → is_ok sys.lock ≡ true
    → let p = (close sys q).0 in
      (contents p ≡ contents q)
      × (push sys p r ≡ (p, code 2))
      × (push_wait sys p r wakes ≡ some (p, code 2))
unfolding close push push_wait wait_loop contents
close-push sys q r [] h = ground arith
close-push sys q r (w ∷ wakes) h = ground arith
