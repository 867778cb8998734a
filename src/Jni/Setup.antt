-- ===== src/Jni/Setup.antt =====
-- What ck_runtime_init of c/jni/ck_jni_runtime.c makes, and gives back when it fails, and the end in
-- ck_runtime_destroy. The steps of the bootstrap thread are in `Runtime`; here its result is an answer.
use ckarta.Prelude.{
  ℕ, ◌≡◌, refl, sym, Bool, true, false, not, ◌||◌, ◌⊎◌, inl, inr, List, [], ◌∷◌, Option, none, some,
  Bytes, if◌then◌else◌, arith, if_split, not-true,
}
use mathlib.Core.Path.{subst}
use ckarta.Status.{Status, minus_one, ok, Answer}
use ckarta.Completion.Queue.{Completion, System, is_ok}
use ckarta.Completion.Notification.{EventFd}
use ckarta.Completion.Queue.Lifecycle.{
  Object, init, destroy, notify_fd, drain_notification, IsReleased, IsReady, is_proper,
  init-destroy,
}

-- The queue with its own state, and what the runtime has made beside it.
pub record Held : Type 0 where
  pub queue : Object
  pub queue_initialized : Bool
  pub lock : Bool
  pub condition : Bool
  pub sync_initialized : Bool
  pub thread_started : Bool

-- The answers of the system: the three for the queue, the two for the lock and the condition, that
-- for the thread, the status of its start, and that of its join.
pub record Answers : Type 0 where
  pub queue_lock : Status
  pub queue_condition : Status
  pub eventfd : Answer ℕ
  pub lock : Status
  pub condition : Status
  pub thread : Status
  pub bootstrap_status : Status
  pub join : Status

abbrev with_queue : Object → Bool → Held
with_queue o initialized = record {
  queue = o;
  queue_initialized = initialized;
  lock = false;
  condition = false;
  sync_initialized = false;
  thread_started = false;
}

-- The queue is given back, and the lock and the condition before it.
abbrev undone : System → List ℕ → Object → Status → List ℕ × Held × Status
undone sys fds o s = ((destroy sys fds o).0, with_queue (destroy sys fds o).1 false, s)

unfoldable pub after_queue : System → Answers → List ℕ × Object × Status → List ℕ × Held × Status
after_queue sys a (fds, o, s) =
    let held = record (with_queue o true) {
      lock = true;
      condition = true;
      sync_initialized = true;
      thread_started = true;
    } in
    if not (is_ok s)
    then (fds, with_queue o false, s)
    else if not (is_ok a.lock)
    then undone sys fds o a.lock
    else if not (is_ok a.condition)
    then undone sys fds o a.condition
    else if not (is_ok a.thread)
    then undone sys fds o a.thread
    else if is_ok a.bootstrap_status
    then (fds, held, ok)
    else if not (is_ok a.join)
    then (fds, held, minus_one)
    else undone sys fds o minus_one

-- `untouched` is the memory of a caller whose arguments are refused.
unfoldable pub runtime_init :
    System → Answers → Completion → Bytes → Held → List ℕ → List ℕ × Held × Status
unfolding after_queue
runtime_init sys a r [] untouched fds = (fds, untouched, minus_one)
runtime_init sys a r (c ∷ class_path) untouched fds =
    after_queue sys a (init a.queue_lock a.queue_condition a.eventfd r fds)

-- Only a runtime whose shutdown is complete is destroyed.
unfoldable pub runtime_destroy : System → Bool → List ℕ → Held → List ℕ × Held
runtime_destroy sys complete fds h =
    if not h.sync_initialized || not complete
    then (fds, h)
    else if h.queue_initialized
    then ((destroy sys fds h.queue).0, with_queue (destroy sys fds h.queue).1 false)
    else (fds, with_queue h.queue false)

pub completion_fd : Held → Option ℕ
completion_fd h = if not h.queue_initialized then none else notify_fd h.queue

pub drain_completion_notification : (k : EventFd) → ℕ → Held → k.State → Option (k.State × Status)
drain_completion_notification k fuel h s =
    if not h.queue_initialized then some (s, minus_one) else drain_notification k fuel h.queue s

-- Nothing is held.
pub record IsEmpty (h : Held) : Type 0 where
  pub no_queue : IsReleased h.queue
  pub no_lock : h.lock ≡ false
  pub no_condition : h.condition ≡ false
  pub not_initialized : h.queue_initialized ≡ false
  pub not_set_up : h.sync_initialized ≡ false

abbrev Outcome : System → List ℕ → List ℕ × Held × Status → Type 0
Outcome sys fds (opened, h, s) =
    ((s ≡ ok)
      × (h.thread_started ≡ true)
      × ((runtime_destroy sys true opened h).0 ≡ fds)
      × IsEmpty (runtime_destroy sys true opened h).1)
    ⊎ ((is_ok s ≡ false) × (opened ≡ fds) × IsEmpty h)

undone-Outcome :
    (sys : System) (fds opened : List ℕ) (o : Object) (s : Status)
    → is_ok s ≡ false
    → (destroy sys opened o).0 ≡ fds
    → IsReleased (destroy sys opened o).1
    → Outcome sys fds (undone sys opened o s)
undone-Outcome sys fds opened o s h e released = inr (
  h,
  e,
  record {
    no_queue = released;
    no_lock = refl;
    no_condition = refl;
    not_initialized = refl;
    not_set_up = refl;
  },
)

after_queue-Outcome :
    (sys : System) (a : Answers) (fds opened : List ℕ) (o : Object) (fd : ℕ)
    → is_ok a.join ≡ true
    → IsReady fd fds opened o
    → (destroy sys opened o).0 ≡ fds
    → IsReleased (destroy sys opened o).1
    → Outcome sys fds (after_queue sys a (opened, o, ok))
unfolding after_queue runtime_destroy
after_queue-Outcome sys a fds opened o fd joined ready e released =
    let P = Outcome sys fds in
    let undo = undone-Outcome sys fds opened o in
    if_split P (not (is_ok a.lock)) (λ h. undo a.lock (not-true (is_ok a.lock) h) e released)
      (λ _.
        if_split P (not (is_ok a.condition))
          (λ h. undo a.condition (not-true (is_ok a.condition) h) e released)
          (λ _.
            if_split P (not (is_ok a.thread))
              (λ h. undo a.thread (not-true (is_ok a.thread) h) e released)
              (λ _.
                if_split P (is_ok a.bootstrap_status)
                  (λ _. inl (
                    refl,
                    refl,
                    e,
                    record {
                      no_queue = released;
                      no_lock = refl;
                      no_condition = refl;
                      not_initialized = refl;
                      not_set_up = refl;
                    },
                  ))
                  (λ _. rw joined (undo minus_one refl e released)))))

-- Setting the runtime up gives all or nothing: either the bootstrap thread runs, and destroying the
-- runtime after a complete shutdown gives back all that was made, the descriptor of the notification
-- too; or an error comes back and nothing is left. An `errno` is not 0, the class path is not empty,
-- and the join of a bootstrap thread that failed succeeds.
pub runtime_init-Outcome :
    (sys : System) (a : Answers) (r : Completion) (c : ℕ) (class_path : Bytes) (untouched : Held)
    (fds : List ℕ)
    → is_proper a.eventfd ≡ true
    → is_ok a.join ≡ true
    → let (opened, h, s) = runtime_init sys a r (c ∷ class_path) untouched fds in
      ((s ≡ ok)
        × (h.thread_started ≡ true)
        × ((runtime_destroy sys true opened h).0 ≡ fds)
        × IsEmpty (runtime_destroy sys true opened h).1)
      ⊎ ((is_ok s ≡ false) × (opened ≡ fds) × IsEmpty h)
unfolding runtime_init
runtime_init-Outcome sys a r c class_path untouched fds proper joined =
    let (opened, o, s) = init a.queue_lock a.queue_condition a.eventfd r fds in
    elim (init-destroy sys a.queue_lock a.queue_condition a.eventfd r fds proper) [
      | inl (fd, good, ready, e, released) ↦
          subst (λ t. Outcome sys fds (after_queue sys a (opened, o, t))) (sym good)
            (after_queue-Outcome sys a fds opened o fd joined ready e released)
      | inr (bad, e, released) ↦ refused opened o s bad e released
    ]
  where
    refused :
        (opened : List ℕ) (o : Object) (s : Status)
        → is_ok s ≡ false
        → opened ≡ fds
        → IsReleased o
        → Outcome sys fds (after_queue sys a (opened, o, s))
    refused opened o s bad e released =
        if_split (Outcome sys fds) (not (is_ok s))
          (λ h. inr (
            bad,
            e,
            record {
              no_queue = released;
              no_lock = refl;
              no_condition = refl;
              not_initialized = refl;
              not_set_up = refl;
            },
          ))
          (λ h. ground (arith, h, bad))
