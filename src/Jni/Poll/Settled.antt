-- ===== src/Jni/Poll/Settled.antt =====
-- What a record settles, said without the code: at most one request, the first that it is for.
use ckarta.Prelude.{
  ℕ, zero, suc, ◌≡◌, refl, ap, true, false, ◌&&◌, ◌⊎◌, inl, inr, List, [], ◌∷◌, Option, some, arith,
  Bool-cases,
}
use ckarta.Status.{Status, minus_one, minus_two, minus_three, code, ok}
use ckarta.Error.{ℤ, pos, negsuc, Error, set, status_valid}
use ckarta.Request.{
  Request, running, cancelling, failing, completed, failed, finish, fail, finish_attempt,
  fail_attempt,
}
use ckarta.Completion.Queue.{Completion, Queue, System, is_ok, pop}
use ckarta.Completion.Queue.Fifo.{IsValid, contents, pop-fifo, fifo_pop}
use ckarta.Jni.Poll.{
  matches, failure_of, is_zero, error_for, settle_one, settle, poll_completion, after_pop,
}

-- The request whose record has come, before and after, and what the caller is told: a request that
-- was running is completed or failed, with the error for the status of the record; one that is
-- decided stays as it is, and so does one that was not started.
pub data Settled (c : Completion) (r : Request) : Request → Status → Type 0 where
  completes :
      is_zero c.status ≡ true
      → r.state ≡ running
      → Settled c r (record r { state = completed }) (code 1)
  fails :
      (e : Error)
      → is_zero c.status ≡ false
      → r.state ≡ running
      → (e.category, e.code, e.http_status) ≡ failure_of c.status
      → e.request_id ≡ r.descriptor.request_id
      → Settled c r (record r { error = e; state = failed }) minus_two
  was_decided :
      (r.state ≡ cancelling) ⊎ ((r.state ≡ failing) ⊎ ((r.state ≡ completed) ⊎ (r.state ≡ failed)))
      → Settled c r r (code 2)
  not_started : (r.state ≡ running → ⊥) → Settled c r r minus_one

-- The requests before and after: the first that the record matches is settled.
pub data Outcome (c : Completion) : List Request → List Request → Status → Type 0 where
  nobody : Outcome c [] [] minus_three
  this :
      {r p : Request} {requests : List Request} {s : Status}
      → matches c r ≡ true
      → Settled c r p s
      → Outcome c (r ∷ requests) (p ∷ requests) s
  later :
      {r : Request} {requests left : List Request} {s : Status}
      → matches c r ≡ false
      → Outcome c requests left s
      → Outcome c (r ∷ requests) (r ∷ left) s

-- The error that is made, and that making it succeeds.
failure_made :
    (status : ℤ) (r : Request)
    → let (e, s) = error_for status r in
      (s ≡ ok)
      × ((e.category, e.code, e.http_status) ≡ failure_of status)
      × (e.request_id ≡ r.descriptor.request_id)
      × (e.abi_version ≡ ckarta.Error.abi_version)
unfolding error_for failure_of set status_valid
failure_made (pos n) r = (refl, refl, refl, refl)
failure_made (negsuc zero) r = (refl, refl, refl, refl)
failure_made (negsuc (suc zero)) r = (refl, refl, refl, refl)
failure_made (negsuc (suc (suc n))) r = (refl, refl, refl, refl)

abbrev IsDecided : ℕ → Type 0
IsDecided s = (s ≡ cancelling) ⊎ ((s ≡ failing) ⊎ ((s ≡ completed) ⊎ (s ≡ failed)))

state-cases : (s : ℕ) → (s ≡ running) ⊎ (IsDecided s ⊎ ((s ≡ running → ⊥) × (IsDecided s → ⊥)))
state-cases s = ground arith

finish-running : (r : Request) → r.state ≡ running → finish r ≡ (record r { state = completed }, ok)
unfolding finish finish_attempt
finish-running r h = rw h refl

finish-decided : (r : Request) → IsDecided r.state → finish r ≡ (r, code 1)
unfolding finish finish_attempt
finish-decided r h = ground arith

finish-other :
    (r : Request) → (r.state ≡ running → ⊥) → (IsDecided r.state → ⊥) → finish r ≡ (r, minus_one)
unfolding finish finish_attempt
finish-other r h k = ground arith

fail-running :
    (r : Request) (e : Error)
    → e.abi_version ≡ ckarta.Error.abi_version
    → r.state ≡ running
    → fail r e ≡ (record r { error = e; state = failed }, ok)
unfolding fail fail_attempt
fail-running r e v h = ground arith

fail-decided :
    (r : Request) (e : Error)
    → e.abi_version ≡ ckarta.Error.abi_version
    → IsDecided r.state
    → fail r e ≡ (r, code 1)
unfolding fail fail_attempt
fail-decided r e v h = ground arith

fail-other :
    (r : Request) (e : Error)
    → e.abi_version ≡ ckarta.Error.abi_version
    → (r.state ≡ running → ⊥)
    → (IsDecided r.state → ⊥)
    → fail r e ≡ (r, minus_one)
unfolding fail fail_attempt
fail-other r e v h k = ground arith

settle_one-zero :
    (c : Completion) (r : Request)
    → is_zero c.status ≡ true
    → Settled c r (settle_one c r).0 (settle_one c r).1
unfolding settle_one
settle_one-zero c r z = elim (state-cases r.state) [
  | inl h ↦ rw (z, finish-running r h) (completes z h)
  | inr (inl h) ↦ rw (z, finish-decided r h) (was_decided h)
  | inr (inr (h, k)) ↦ rw (z, finish-other r h k) (not_started h)
]

settle_one-failure :
    (c : Completion) (r : Request)
    → is_zero c.status ≡ false
    → Settled c r (settle_one c r).0 (settle_one c r).1
unfolding settle_one
settle_one-failure c r z =
    let (s, kind, id, v) = failure_made c.status r in
    let e = (error_for c.status r).0 in
    elim (state-cases r.state) [
      | inl h ↦ rw (z, s, fail-running r e v h) (fails e z h kind id)
      | inr (inl h) ↦ rw (z, s, fail-decided r e v h) (was_decided h)
      | inr (inr (h, k)) ↦ rw (z, s, fail-other r e v h k) (not_started h)
    ]

settle_one-Settled :
    (c : Completion) (r : Request) → Settled c r (settle_one c r).0 (settle_one c r).1
settle_one-Settled c r = elim (Bool-cases (is_zero c.status)) [
  | inl z ↦ settle_one-zero c r z
  | inr z ↦ settle_one-failure c r z
]

pub settle-Outcome :
    (c : Completion) (requests : List Request)
    → Outcome c requests (settle c requests).0 (settle c requests).1
unfolding settle
settle-Outcome c [] = nobody
settle-Outcome c (r ∷ requests) = elim (Bool-cases (matches c r)) [
  | inl m ↦ rw m (this m (settle_one-Settled c r))
  | inr m ↦ rw m (later m (settle-Outcome c requests))
]

abbrev IsPolled : List Request → List Completion → Queue × List Request × Status → Type 0
IsPolled requests row (p, left, s) =
    ((row ≡ []) × (contents p ≡ []) × (left ≡ requests) × (s ≡ ok))
    ⊎ ((c : Completion) × (row ≡ c ∷ contents p) × Outcome c requests left s)

after_pop-IsPolled :
    (sys : System) (unwritten : Completion) (p : Queue) (s : Status) (got : Option Completion)
    (requests : List Request) (row : List Completion)
    → is_ok sys.lock && (is_ok sys.signal_not_full && is_ok sys.unlock) ≡ true
    → (contents p, s, got) ≡ fifo_pop sys row
    → IsPolled requests row (after_pop unwritten requests (p, s, got))
unfolding fifo_pop
after_pop-IsPolled sys unwritten p s got requests [] h e =
    let now : s ≡ code 0 = ground arith in
    let none_left : contents p ≡ [] = ground arith in rw now (inl (refl, none_left, refl, refl))
after_pop-IsPolled sys unwritten p s got requests (c ∷ row) h e =
    let now : s ≡ code 1 = ground arith in
    let left : row ≡ contents p = ground arith in
    let has : got ≡ some c = ground arith in
    rw (now, has) (inr (c, ap (◌∷◌ c) left, settle-Outcome c requests))

-- With a queue that is set up, a lock that is got and calls that succeed, a poll of an empty row
-- answers 0 and changes nothing; else it takes the first record of the row, and settles with it the
-- first request that it is for and no other.
pub poll-Outcome :
    (sys : System) (unwritten : Completion) (q : Queue) (r : Request) (requests : List Request)
    → IsValid q
    → is_ok sys.lock && (is_ok sys.signal_not_full && is_ok sys.unlock) ≡ true
    → let (p, left, s) = poll_completion sys true unwritten q (r ∷ requests) in
      ((contents q ≡ []) × (contents p ≡ []) × (left ≡ r ∷ requests) × (s ≡ ok))
      ⊎ ((c : Completion) × (contents q ≡ c ∷ contents p) × Outcome c (r ∷ requests) left s)
unfolding poll_completion
poll-Outcome sys unwritten q r requests v h =
    let (p, s, got) = pop sys q in
    after_pop-IsPolled sys unwritten p s got (r ∷ requests) (contents q) h (pop-fifo sys q v).0
