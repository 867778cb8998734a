-- ===== src/Smoke/Counts.antt =====
-- What the count of the smoke run means.
use ckarta.Prelude.{
  ℕ, suc, ◌+◌, ◌≡◌, refl, ap, ◌∙◌, true, false, not, List, [], ◌∷◌, Option, none, some, ltb, ◌==◌,
  if◌then◌else◌, arith, if_both, if_split,
}
use ckarta.Status.{Status, minus_one, minus_two, minus_three, code, Answer, value, errno}
use ckarta.Request.{Request, completed}
use ckarta.Completion.Queue.{Completion, Queue, System, is_ok, pop}
use ckarta.Jni.Poll.{poll_completion, settle, after_pop, stored}
use ckarta.Jni.Poll.Settled.{
  Outcome, settle-Outcome, nobody, this, later, completes, fails, was_decided, not_started,
}
use ckarta.Smoke.{
  Turn, Round, is_positive, counted, poll_loop, behind_polls, behind_wait, completion_loop, eintr,
}

-- How many of the requests are completed.
pub completed_in : List Request → ℕ
completed_in [] = 0
completed_in (r ∷ requests) =
    let rest = completed_in requests in if r.state == completed then suc rest else rest

-- A record completes one request more exactly when the answer is 1.
outcome-counted :
    {c : Completion} {requests left : List Request} {s : Status}
    → Outcome c requests left s
    → completed_in left ≡ counted (completed_in requests) s
unfolding completed_in
outcome-counted nobody = refl
outcome-counted (later m o) = ground (arith, outcome-counted o)
outcome-counted (this m (completes z h)) = ground arith
outcome-counted (this m (fails e z h k i)) = ground arith
outcome-counted (this m (was_decided d)) = refl
outcome-counted (this m (not_started n)) = refl

settle-counted :
    (c : Completion) (requests : List Request)
    → completed_in (settle c requests).0 ≡ counted (completed_in requests) (settle c requests).1
settle-counted c requests = outcome-counted (settle-Outcome c requests)

after_pop-counted :
    (unwritten : Completion) (requests : List Request) (q : Queue) (s : Status)
    (got : Option Completion)
    → let (p, left, t) = after_pop unwritten requests (q, s, got) in
      completed_in left ≡ counted (completed_in requests) t
after_pop-counted unwritten requests q minus_one got = refl
after_pop-counted unwritten requests q minus_two got = refl
after_pop-counted unwritten requests q minus_three got = refl
after_pop-counted unwritten requests q (code n) got =
    let P : Queue × List Request × Status → Type 0 =
      λ x. completed_in x.1 ≡ counted (completed_in requests) x.2 in
    if_both P (n == 0) refl (settle-counted (stored unwritten got) requests)

poll-counted :
    (sys : System) (unwritten : Completion) (q : Queue) (requests : List Request)
    → let (p, left, t) = poll_completion sys true unwritten q requests in
      completed_in left ≡ counted (completed_in requests) t
unfolding poll_completion
poll-counted sys unwritten q [] = refl
poll-counted sys unwritten q (r ∷ requests) =
    let (p, s, got) = pop sys q in after_pop-counted unwritten (r ∷ requests) p s got

-- The requests that are completed are those that were before, `k` of them, and those counted.
abbrev Polled : ℕ → Option (List Request × ℕ × Status) → Type 0
Polled k none = Unit
Polled k (some (left, count, s)) = completed_in left ≡ k + count

abbrev pub Counted : ℕ → Option (List Request × ℕ) → Type 0
Counted k none = Unit
Counted k (some (left, count)) = completed_in left ≡ k + count

counted-moves :
    (k before now count : ℕ) (s : Status)
    → before ≡ k + count
    → now ≡ counted before s
    → now ≡ k + counted count s
counted-moves k before now count s h e = ground arith

poll_loop-Polled :
    (k : ℕ) (turns : List Turn) (requests : List Request) (count : ℕ)
    → completed_in requests ≡ k + count
    → Polled k (poll_loop turns requests count)
unfolding poll_loop
poll_loop-Polled k [] requests count h = tt
poll_loop-Polled k (t ∷ turns) requests count h =
    let (q, left, s) = poll_completion t.sys true t.unwritten t.queue requests in
    let now =
      counted-moves k (completed_in requests) (completed_in left) count s h
        (poll-counted t.sys t.unwritten t.queue requests) in
    if_split (Polled k) (is_positive s) (λ p. poll_loop-Polled k turns left (counted count s) now)
      (λ p. now ∙ ap (λ c. k + c) (not_counted s count p))
  where
    not_counted : (s : Status) (count : ℕ) → is_positive s ≡ false → counted count s ≡ count
    not_counted s count p = ground arith

behind_polls-Counted :
    (k : ℕ) (again : List Request → ℕ → Option (List Request × ℕ))
    (o : Option (List Request × ℕ × Status))
    → ((left : List Request) (now : ℕ) → completed_in left ≡ k + now → Counted k (again left now))
    → Polled k o
    → Counted k (behind_polls again o)
behind_polls-Counted k again none goes h = tt
behind_polls-Counted k again (some (left, count, s)) goes h =
    if_both (Counted k) (is_ok s) (goes left count h) h

behind_wait-Counted :
    (k : ℕ) (again : List Request → ℕ → Option (List Request × ℕ)) (requests : List Request)
    (count : ℕ) (r : Round) (w : Answer ℕ)
    → ((left : List Request) (now : ℕ) → completed_in left ≡ k + now → Counted k (again left now))
    → completed_in requests ≡ k + count
    → Counted k (behind_wait again requests count r w)
behind_wait-Counted k again requests count r (errno e) goes h =
    if_both (Counted k) (e == eintr) (goes requests count h) h
behind_wait-Counted k again requests count r (value n) goes h =
    if_both (Counted k) (n == 0) (goes requests count h) (
      if_both (Counted k) (not (is_ok r.drained)) h (
        behind_polls-Counted k again (poll_loop r.turns requests count) goes
          (poll_loop-Polled k r.turns requests count h)))

pub completion_loop-Counted :
    (k : ℕ) (rounds : List Round) (requests : List Request) (count : ℕ)
    → completed_in requests ≡ k + count
    → Counted k (completion_loop rounds requests count)
unfolding completion_loop
completion_loop-Counted k [] requests count h = if_both (Counted k) (ltb count 2) tt h
completion_loop-Counted k (r ∷ rounds) requests count h =
    if_both (Counted k) (ltb count 2)
      (behind_wait-Counted k (λ left now. completion_loop rounds left now) requests count r r.waited
        (λ left now e. completion_loop-Counted k rounds left now e) h)
      h
