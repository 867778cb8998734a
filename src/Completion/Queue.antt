-- ===== src/Completion/Queue.antt =====
-- The bounded queue of c/completion/ck_completion_queue.c. The array is a function from its
-- indices. What the calls on the lock, the condition and the notification answer is a parameter.
pub mod Fifo
pub mod Lifecycle
pub mod Waiting
pub mod Wakeup
use ckarta.Prelude.{
  ℕ, ◌+◌, ◌-◌, ◌%◌, Bool, true, false, not, ◌&&◌, List, [], ◌∷◌, Option, none, some, ◌==◌,
  if◌then◌else◌,
}
use ckarta.Status.{Status, minus_one, code, ok}
use ckarta.Error.{ℤ}

abbrev pub capacity : ℕ
capacity = 64

pub record Completion : Type 0 where
  pub request_id : ℕ
  pub owner_token : ℕ
  pub lifetime_token : ℕ
  pub cycle_id : ℕ
  pub result : ℤ
  pub status : ℤ

pub record Queue : Type 0 where
  pub entries : ℕ → Completion
  pub head : ℕ
  pub tail : ℕ
  pub count : ℕ
  pub closed : Bool

-- What one call of each function answers while an operation runs.
pub record System : Type 0 where
  pub lock : Status
  pub unlock : Status
  pub signal_not_full : Status
  pub broadcast_not_full : Status
  pub signal_notification : Status

abbrev pub is_ok : Status → Bool
is_ok (code n) = n == 0
is_ok minus_one = false
is_ok Status.minus_two = false
is_ok Status.minus_three = false

-- `init` where its three calls succeed; the array is filled with zeros.
unfoldable pub init : Completion → Queue
init zero_record = record {
  entries = λ i. zero_record;
  head = 0;
  tail = 0;
  count = 0;
  closed = false;
}

unfoldable pub put : (ℕ → Completion) → ℕ → Completion → ℕ → Completion
put entries at r i = if i == at then r else entries i

-- The record goes in; if the signal fails the counters go back.
unfoldable pub append : System → Queue → Completion → Queue × Status
unfolding put
append sys q r =
    let entries = put q.entries q.tail r in
    let tail = (q.tail + 1) % capacity in
    let count = q.count + 1 in
    if not (is_ok sys.signal_notification)
    then (
      record q { entries = entries; tail = (tail + capacity - 1) % capacity; count = count - 1 },
      sys.signal_notification,
    )
    else (record q { entries = entries; tail = tail; count = count }, sys.unlock)

unfoldable pub push : System → Queue → Completion → Queue × Status
unfolding append
push sys q r =
    if not (is_ok sys.lock)
    then (q, sys.lock)
    else if q.closed
    then (q, code 2)
    else if q.count == capacity
    then (q, code 1)
    else append sys q r

-- The new queue, the result, and the record that is stored.
unfoldable pub pop : System → Queue → Queue × Status × Option Completion
pop sys q =
    let r = q.entries q.head in
    let p = record q { head = (q.head + 1) % capacity; count = q.count - 1 } in
    if not (is_ok sys.lock)
    then (q, sys.lock, none)
    else if q.count == 0
    then (q, code 0, none)
    else if not (is_ok sys.signal_not_full)
    then (p, sys.signal_not_full, some r)
    else (p, if is_ok sys.unlock then code 1 else sys.unlock, some r)

-- A return from `pthread_cond_wait`: its result, and the queue that the other threads have left.
pub record WakeUp : Type 0 where
  pub result : Status
  pub queue : Queue

-- The loop of `push_wait`, on the wake-ups of its waits; `none` if it still waits after the last.
unfoldable pub wait_loop : System → Queue → Completion → List WakeUp → Option (Queue × Status)
unfolding append
wait_loop sys q r [] =
    if not q.closed && q.count == capacity
    then none
    else some (if q.closed then (q, code 2) else append sys q r)
wait_loop sys q r (w ∷ wakes) =
    let rest = wait_loop sys w.queue r wakes in
    if not q.closed && q.count == capacity
    then if not (is_ok w.result) then some (w.queue, w.result) else rest
    else some (if q.closed then (q, code 2) else append sys q r)

unfoldable pub push_wait : System → Queue → Completion → List WakeUp → Option (Queue × Status)
unfolding wait_loop
push_wait sys q r wakes =
    if not (is_ok sys.lock) then some (q, sys.lock) else wait_loop sys q r wakes

pub close : System → Queue → Queue × Status
close sys q =
    let p = record q { closed = true } in
    if not (is_ok sys.lock)
    then (q, sys.lock)
    else if q.closed
    then (q, code 1)
    else if not (is_ok sys.broadcast_not_full)
    then (p, sys.broadcast_not_full)
    else if not (is_ok sys.signal_notification)
    then (p, sys.signal_notification)
    else (p, sys.unlock)
