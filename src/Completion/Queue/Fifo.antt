-- ===== src/Completion/Queue/Fifo.antt =====
-- The queue as a first-in first-out row of at most 64 records.
use ckarta.Prelude.{
  ℕ, zero, suc, ◌+◌, ◌-◌, ◌%◌, ◌≤◌, ◌<◌, ◌≡◌, refl, sym, ap, ◌∙◌, Bool, false, not, List, [], ◌∷◌,
  ◌++◌, Option, none, some, ◌==◌, if◌then◌else◌, length, arith, le_or_lt, inl, inr,
}
use ckarta.Status.{Status, code}
use ckarta.Completion.Queue.{
  Completion, Queue, System, is_ok, capacity, put, append, push, pop, close, init,
}

-- The `n` records from an index on, round the array.
unfoldable pub row : (ℕ → Completion) → ℕ → ℕ → List Completion
row entries head zero = []
row entries head (suc n) = entries (head % capacity) ∷ row entries (head + 1) n

unfoldable pub contents : Queue → List Completion
contents q = row q.entries q.head q.count

pub record IsValid (q : Queue) : Type 0 where
  pub head_inside : q.head < capacity
  pub count_fits : q.count ≤ capacity
  pub tail_is : q.tail ≡ (q.head + q.count) % capacity

length-row : (entries : ℕ → Completion) (head n : ℕ) → length (row entries head n) ≡ n
unfolding row
length-row entries head zero = refl
length-row entries head (suc n) = ap suc (length-row entries (head + 1) n)

row_wraps :
    (entries : ℕ → Completion) (p q n : ℕ)
    → p % capacity ≡ q % capacity
    → row entries p n ≡ row entries q n
unfolding row
row_wraps entries p q zero h = refl
row_wraps entries p q (suc n) h =
    ap (λ i. entries i ∷ row entries (p + 1) n) h
    ∙ ap (◌∷◌ (entries (q % capacity))) (row_wraps entries (p + 1) (q + 1) n (omega arith))

row-put :
    (entries : ℕ → Completion) (head at n : ℕ) (r : Completion)
    → ((j : ℕ) → j < n → (head + j) % capacity ≡ at → ⊥)
    → row (put entries at r) head n ≡ row entries head n
unfolding row put
row-put entries head at zero r h = refl
row-put entries head at (suc n) r h =
    let rest =
      row-put entries (head + 1) at n r (λ j l e. h (suc j) (omega arith) (omega (arith, e))) in
    rw rest (ground (arith, h 0))

row_snoc :
    (entries : ℕ → Completion) (head n : ℕ)
    → row entries head (n + 1) ≡ row entries head n ++ entries ((head + n) % capacity) ∷ []
unfolding row
row_snoc entries head zero = let e : head + 0 ≡ head = omega arith in rw e refl
row_snoc entries head (suc n) =
    let e : head + suc n ≡ head + 1 + n = omega arith in
    let k : suc n + 1 ≡ suc (n + 1) = omega arith in
    rw (e, k) (ap (◌∷◌ (entries (head % capacity))) (row_snoc entries (head + 1) n))

put_here : (entries : ℕ → Completion) (at i : ℕ) (r : Completion) → i ≡ at → put entries at r i ≡ r
unfolding put
put_here entries at i r e = ground arith

row-put_last :
    (entries : ℕ → Completion) (head at n : ℕ) (r : Completion)
    → n < capacity
    → at ≡ (head + n) % capacity
    → row (put entries at r) head (n + 1) ≡ row entries head n ++ r ∷ []
row-put_last entries head at n r h e =
    row_snoc (put entries at r) head n
    ∙ rw
        (
          row-put entries head at n r (λ j l k. omega arith),
          put_here entries at ((head + n) % capacity) r (sym e),
        )
        refl

pub length-contents : (q : Queue) → length (contents q) ≡ q.count
unfolding contents
length-contents q = length-row q.entries q.head q.count

-- Adding to a row that is closed or not; the row is left alone where the lock or the signal fails.
unfoldable pub fifo_push : System → List Completion → Bool → Completion → List Completion × Status
fifo_push sys records closed r =
    if not (is_ok sys.lock)
    then (records, sys.lock)
    else if closed
    then (records, code 2)
    else if length records == capacity
    then (records, code 1)
    else if not (is_ok sys.signal_notification)
    then (records, sys.signal_notification)
    else (records ++ r ∷ [], sys.unlock)

-- Taking the first record of a row.
unfoldable pub fifo_pop : System → List Completion → List Completion × Status × Option Completion
fifo_pop sys [] = ([], if is_ok sys.lock then code 0 else sys.lock, none)
fifo_pop sys (r ∷ records) = if not (is_ok sys.lock) then (r ∷ records, sys.lock, none) else (
  records,
  if not (is_ok sys.signal_not_full)
      then sys.signal_not_full
      else if is_ok sys.unlock
      then code 1
      else sys.unlock,
  some r,
)

push-IsValid : (sys : System) (q : Queue) (r : Completion) → IsValid q → IsValid (push sys q r).0
unfolding push append
push-IsValid sys q r v = ground arith

pop-IsValid : (sys : System) (q : Queue) → IsValid q → IsValid (pop sys q).0
unfolding pop
pop-IsValid sys q v = ground arith

init-IsValid : (zero_record : Completion) → IsValid (init zero_record)
unfolding init
init-IsValid zero_record = ground arith

close-IsValid : (sys : System) (q : Queue) → IsValid q → IsValid (close sys q).0
unfolding close
close-IsValid sys q v = ground arith

-- The head is inside the array, at most 64 records are counted, and the tail is where they end:
-- a new queue has this, and push, pop and close keep it, whatever the system answers them.
pub queue_operations-IsValid :
    (sys : System) (q : Queue) (r : Completion)
    → IsValid q
    → IsValid (init r) × IsValid (push sys q r).0 × IsValid (pop sys q).0 × IsValid (close sys q).0
queue_operations-IsValid sys q r v =
    (init-IsValid r, push-IsValid sys q r v, pop-IsValid sys q v, close-IsValid sys q v)

contents-appended :
    (q : Queue) (r : Completion) (tail : ℕ)
    → IsValid q
    → q.count < capacity
    → contents (record q { entries = put q.entries q.tail r; tail = tail; count = q.count + 1 })
      ≡ contents q ++ r ∷ []
unfolding contents
contents-appended q r tail v h = row-put_last q.entries q.head q.tail q.count r h v.tail_is

contents-taken_back :
    (q : Queue) (r : Completion) (tail : ℕ)
    → IsValid q
    → q.count < capacity
    → contents (record q { entries = put q.entries q.tail r; tail = tail; count = q.count + 1 - 1 })
      ≡ contents q
unfolding contents
contents-taken_back q r tail v h =
    let e : q.count + 1 - 1 ≡ q.count = omega arith in
    rw e (row-put q.entries q.head q.tail q.count r (λ j l k. omega (arith, v.tail_is)))

pub pop_unlocked :
    (sys : System) (q : Queue) → is_ok sys.lock ≡ false → pop sys q ≡ (q, sys.lock, none)
unfolding pop
pop_unlocked sys q h = rw h refl

contents-empty : (q : Queue) → q.count ≡ 0 → contents q ≡ []
unfolding contents row
contents-empty q e = rw e refl

contents-popped :
    (q : Queue)
    → IsValid q
    → 0 < q.count
    → contents q
      ≡ q.entries q.head
        ∷ contents (record q { head = (q.head + 1) % capacity; count = q.count - 1 })
unfolding contents row
contents-popped q v h =
    let e : q.count ≡ suc (q.count - 1) = omega arith in
    let k : q.head % capacity ≡ q.head = omega (arith, v.head_inside) in
    ap (row q.entries q.head) e
    ∙ ap (λ i. q.entries i ∷ row q.entries (q.head + 1) (q.count - 1)) k
    ∙ ap (◌∷◌ (q.entries q.head))
        (row_wraps q.entries (q.head + 1) ((q.head + 1) % capacity) (q.count - 1) (omega arith))

-- On a valid queue `push` does to the row of its records what `fifo_push` does, and the closed flag
-- stays. When the notification cannot be signalled the record is taken back.
pub push-fifo :
    (sys : System) (q : Queue) (r : Completion)
    → IsValid q
    → let (p, status) = push sys q r in
      ((contents p, status) ≡ fifo_push sys (contents q) q.closed r) × (p.closed ≡ q.closed)
unfolding push append fifo_push
push-fifo sys q r v = ground (
  arith,
  length-contents q,
  contents-appended q r ((q.tail + 1) % capacity) v,
  contents-taken_back q r (((q.tail + 1) % capacity + capacity - 1) % capacity) v,
)

-- On a valid queue `pop` does to the row of its records what `fifo_pop` does, and the closed flag
-- stays: a record that is in the row is still handed out after the queue is closed.
pub pop-fifo :
    (sys : System) (q : Queue)
    → IsValid q
    → let (p, status, r?) = pop sys q in
      ((contents p, status, r?) ≡ fifo_pop sys (contents q)) × (p.closed ≡ q.closed)
unfolding pop fifo_pop
pop-fifo sys q v = elim (le_or_lt q.count 0) [
  | inl h ↦ ground (arith, contents-empty q (omega arith))
  | inr h ↦ ground (arith, contents-popped q v h)
]

-- On a valid queue `push` and `pop` do to the row of its records what `fifo_push` and `fifo_pop` do,
-- and the closed flag stays: when the notification cannot be signalled the record is taken back, and a
-- record that is in the row is still handed out after the queue is closed.
pub queue-fifo :
    (sys : System) (q : Queue) (r : Completion)
    → IsValid q
    → let (p, status) = push sys q r in
      let (left, answer, r?) = pop sys q in
      ((contents p, status) ≡ fifo_push sys (contents q) q.closed r)
      × (p.closed ≡ q.closed)
      × ((contents left, answer, r?) ≡ fifo_pop sys (contents q))
      × (left.closed ≡ q.closed)
queue-fifo sys q r v =
    let (pushed, same) = push-fifo sys q r v in
    let (popped, kept) = pop-fifo sys q v in (pushed, same, popped, kept)
