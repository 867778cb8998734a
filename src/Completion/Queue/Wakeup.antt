-- ===== src/Completion/Queue/Wakeup.antt =====
-- The producers and the consumer of the queue at the same time. A step is one critical section of
-- the lock, one read of the drain or one wake-up; the consumer is the loop of c/core/main.c: it waits
-- for the descriptor, drains it, takes records until the queue is empty, and waits again.
use ckarta.Prelude.{
  ℕ, ◌<◌, ◌≡◌, refl, true, not, ◌&&◌, ◌⊎◌, inl, inr, ◌==◌, if◌then◌else◌, arith, Bool-cases,
}
use ckarta.Status.{Status, Answer, value, errno}
use ckarta.Completion.Notification.{Notification, EventFd, IsEventFd, signal}
use ckarta.Completion.Notification.Drain.{signal-readable}
use ckarta.Completion.Queue.{Completion, Queue, System, is_ok, capacity, push, append, pop, close}

pub data Phase : Type 0 where
  waiting draining polling : Phase

-- A read that has given something is followed by another one.
abbrev pub after_read : Answer ℕ → Phase
after_read (value bytes) = draining
after_read (errno e) = polling

after_read-cases : (a : Answer ℕ) → (after_read a ≡ draining) ⊎ (after_read a ≡ polling)
after_read-cases (value bytes) = inl refl
after_read-cases (errno e) = inr refl

module _ (k : EventFd) where
  pub record Machine : Type 0 where
    pub queue : Queue
    pub eventfd : k.State
    pub consumer : Phase

  -- The system whose signal is that of the notification.
  abbrev pub with_signal : System → Notification → k.State → System
  with_signal sys n s = record sys { signal_notification = (signal k n s).1 }

  -- A call of `push` with the eventfd, which it signals if it has stored the record.
  unfoldable pub pushed : System → Notification → Machine → Completion → Machine
  unfolding push
  pushed sys n m r =
      let p = (push (with_signal sys n m.eventfd) m.queue r).0 in
      if is_ok sys.lock && not m.queue.closed && not (m.queue.count == capacity)
      then record m { queue = p; eventfd = (signal k n m.eventfd).0 }
      else record m { queue = p }

  pub closed_by : System → Notification → Machine → Machine
  unfolding close
  closed_by sys n m =
      let p = (close (with_signal sys n m.eventfd) m.queue).0 in
      if is_ok sys.lock && not m.queue.closed && is_ok sys.broadcast_not_full
      then record m { queue = p; eventfd = (signal k n m.eventfd).0 }
      else record m { queue = p }

  -- The consumer goes on waiting only when `pop` has answered 0.
  abbrev pub after_pop : Status → Phase
  after_pop s = if is_ok s then waiting else polling

  pub data Step (n : Notification) (m : Machine) : Machine → Type 0 where
    pushes : (sys : System) (r : Completion) → Step n m (pushed sys n m r)
    closes : (sys : System) → Step n m (closed_by sys n m)
    wakes :
        m.consumer ≡ waiting
        → k.is_readable m.eventfd ≡ true
        → Step n m (record m { consumer = draining })
    reads :
        m.consumer ≡ draining
        → Step n m (record m {
          eventfd = (k.read m.eventfd).0;
          consumer = after_read (k.read m.eventfd).1;
        })
    takes :
        (sys : System)
        → m.consumer ≡ polling
        → Step n m
            (record m { queue = (pop sys m.queue).0; consumer = after_pop (pop sys m.queue).1 })

  pub data Reach (n : Notification) (m : Machine) : Machine → Type 0 where
    here : Reach n m m
    next : {p q : Machine} → Reach n m p → Step n p q → Reach n m q

  -- The consumer is at work, or there is nothing for it, or its descriptor is readable.
  pub IsAwake : Machine → Type 0
  IsAwake m =
      (m.consumer ≡ draining)
      ⊎ ((m.consumer ≡ polling) ⊎ ((m.queue.count ≡ 0) ⊎ (k.is_readable m.eventfd ≡ true)))

  pushed-IsAwake :
      (sys : System) (n : Notification) (m : Machine) (r : Completion)
      → IsEventFd k
      → n.initialized ≡ true
      → IsAwake m
      → IsAwake (pushed sys n m r)
  unfolding pushed IsAwake push append
  pushed-IsAwake sys n m r law h a =
      let (e, readable) = signal-readable k n m.eventfd law h in
      elim (Bool-cases (is_ok sys.lock && not m.queue.closed && not (m.queue.count == capacity))) [
        | inl b ↦ rw b (inr (inr (inr readable)))
        | inr b ↦ ground arith
      ]

  closed_by-IsAwake :
      (sys : System) (n : Notification) (m : Machine)
      → IsEventFd k
      → n.initialized ≡ true
      → IsAwake m
      → IsAwake (closed_by sys n m)
  unfolding closed_by IsAwake close
  closed_by-IsAwake sys n m law h a =
      let (e, readable) = signal-readable k n m.eventfd law h in ground arith

  pop-zero : (sys : System) (q : Queue) → is_ok (pop sys q).1 ≡ true → (pop sys q).0.count ≡ 0
  unfolding pop
  pop-zero sys q h = ground arith

  Step-IsAwake :
      {n : Notification} {m p : Machine}
      → IsEventFd k
      → n.initialized ≡ true
      → IsAwake m
      → Step n m p
      → IsAwake p
  unfolding IsAwake
  Step-IsAwake {n} {m} law h a (pushes sys r) = pushed-IsAwake sys n m r law h a
  Step-IsAwake {n} {m} law h a (closes sys) = closed_by-IsAwake sys n m law h a
  Step-IsAwake law h a (wakes e f) = inl refl
  Step-IsAwake {n} {m} law h a (reads e) = elim (after_read-cases (k.read m.eventfd).1) [
    | inl e ↦ inl e
    | inr e ↦ inr (inl e)
  ]
  Step-IsAwake {n} {m} law h a (takes sys e) = elim (Bool-cases (is_ok (pop sys m.queue).1)) [
    | inl b ↦ inr (inr (inl (pop-zero sys m.queue b)))
    | inr b ↦ inr (inl (rw b refl))
  ]

  Reach-IsAwake_lem :
      {n : Notification} {m p : Machine}
      → IsEventFd k
      → n.initialized ≡ true
      → IsAwake m
      → Reach n m p
      → IsAwake p
  Reach-IsAwake_lem law h a here = a
  Reach-IsAwake_lem law h a (next r s) = Step-IsAwake law h (Reach-IsAwake_lem law h a r) s

-- No wake-up is lost: however the steps of the producers and of the consumer interleave, from an
-- empty queue on, a consumer that waits while a record is in the queue has a readable descriptor.
-- The eventfd keeps the word of its manual, and the notification is set up.
pub Reach-IsAwake :
    (k : EventFd) {n : Notification} {m p : Machine k}
    → IsEventFd k
    → n.initialized ≡ true
    → m.queue.count ≡ 0
    → Reach k n m p
    → p.consumer ≡ waiting
    → 0 < p.queue.count
    → k.is_readable p.eventfd ≡ true
unfolding IsAwake
Reach-IsAwake k law h e r w c =
    let a = Reach-IsAwake_lem k law h (inr (inr (inl e))) r in ground arith
