-- ===== src/Completion/Queue/Lifecycle.antt =====
-- The making and the end of the queue: what `init` has made when it fails is undone, and `destroy`
-- undoes all of it.
use ckarta.Prelude.{
  ℕ, ◌≡◌, Bool, true, false, not, List, ◌∷◌, Option, none, some, ◌==◌, if◌then◌else◌, arith,
  Bool-cases, ◌⊎◌, inl, inr, ◌&&◌,
}
use ckarta.Status.{Status, minus_one, ok, Answer, value, errno}
use ckarta.Descriptors.{release_newest}
use ckarta.Completion.Notification as Notification
use ckarta.Completion.Notification.{Notification, EventFd}
use ckarta.Completion.Queue.{Completion, Queue, System, is_ok, close}

-- The object with its mutex, its condition and its notification; `held` tells which of the first two
-- are made, and the descriptors are those of the process.
pub record Object : Type 0 where
  pub queue : Queue
  pub lock : Bool
  pub not_full : Bool
  pub notification : Notification
  pub initialized : Bool

abbrev zeros : Completion → Object
zeros r = record {
  queue = ckarta.Completion.Queue.init r;
  lock = false;
  not_full = false;
  notification = record { fd = none; initialized = false };
  initialized = false;
}

-- The last of the three calls of `init`.
abbrev with_notification :
    Object → List ℕ → List ℕ × Notification × Status → List ℕ × Object × Status
with_notification o fds (opened, n, s) =
    if not (is_ok s)
    then (opened, record o { not_full = false; lock = false; notification = n }, s)
    else (opened, record o { notification = n; initialized = true }, ok)

-- What `pthread_mutex_init`, `pthread_cond_init` and `eventfd` answer.
unfoldable pub init : Status → Status → Answer ℕ → Completion → List ℕ → List ℕ × Object × Status
init lock_made condition_made eventfd r fds =
    let locked = record (zeros r) { lock = true } in
    let both = record locked { not_full = true } in
    if not (is_ok lock_made)
    then (fds, zeros r, lock_made)
    else if not (is_ok condition_made)
    then (fds, record locked { lock = false }, condition_made)
    else with_notification both fds (Notification.init eventfd fds both.notification)

pub notify_fd : Object → Option ℕ
notify_fd o = if not o.initialized then none else Notification.fd_of o.notification

pub drain_notification : (k : EventFd) → ℕ → Object → k.State → Option (k.State × Status)
drain_notification k fuel o s =
    if not o.initialized then some (s, minus_one) else Notification.drain k fuel o.notification s

unfoldable pub destroy : System → List ℕ → Object → List ℕ × Object
destroy sys fds o =
    let (left, n) = Notification.destroy fds o.notification in
    if not o.initialized then (fds, o) else (
      left,
      record {
        queue = (close sys o.queue).0;
        lock = false;
        not_full = false;
        notification = n;
        initialized = false;
      },
    )

-- Nothing is held: no mutex, no condition, no descriptor, and no claim to be a queue.
pub record IsReleased (o : Object) : Type 0 where
  pub no_lock : o.lock ≡ false
  pub no_condition : o.not_full ≡ false
  pub no_fd : o.notification.fd ≡ none
  pub not_initialized : o.initialized ≡ false

-- All is held, and the notification's descriptor is the newest one.
pub record IsReady (fd : ℕ) (fds opened : List ℕ) (o : Object) : Type 0 where
  pub lock_made : o.lock ≡ true
  pub condition_made : o.not_full ≡ true
  pub has_fd : o.notification.fd ≡ some fd
  pub newest : opened ≡ fd ∷ fds
  pub set_up : o.notification.initialized ≡ true
  pub initialized : o.initialized ≡ true

-- An `errno` is not 0.
abbrev pub is_proper : Answer ℕ → Bool
is_proper (value fd) = true
is_proper (errno e) = not (e == 0)

init-refused :
    (lock_made condition_made : Status) (eventfd : Answer ℕ) (r : Completion) (fds : List ℕ)
    → is_ok lock_made && is_ok condition_made ≡ false
    → let (opened, o, s) = init lock_made condition_made eventfd r fds in
      (is_ok s ≡ false) × (opened ≡ fds) × IsReleased o
unfolding init
init-refused lock_made condition_made eventfd r fds h = ground arith

init-no_eventfd :
    (lock_made condition_made : Status) (e : ℕ) (r : Completion) (fds : List ℕ)
    → is_ok lock_made && is_ok condition_made ≡ true
    → is_proper (errno e) ≡ true
    → let (opened, o, s) = init lock_made condition_made (errno e) r fds in
      (is_ok s ≡ false) × (opened ≡ fds) × IsReleased o
unfolding init Notification.init
init-no_eventfd lock_made condition_made e r fds h k = ground arith

init-all_made :
    (lock_made condition_made : Status) (fd : ℕ) (r : Completion) (fds : List ℕ)
    → is_ok lock_made && is_ok condition_made ≡ true
    → let (opened, o, s) = init lock_made condition_made (value fd) r fds in
      (s ≡ ok) × IsReady fd fds opened o
unfolding init Notification.init
init-all_made lock_made condition_made fd r fds h = ground arith

destroy-ready :
    (sys : System) (fd : ℕ) (fds opened : List ℕ) (o : Object)
    → IsReady fd fds opened o
    → ((destroy sys opened o).0 ≡ fds) × IsReleased (destroy sys opened o).1
unfolding destroy Notification.destroy
destroy-ready sys fd fds opened o ready = ground (arith, release_newest fd fds)

-- Making the queue gives all or nothing: where one of its three calls fails, the error comes back
-- and what was made before it is undone; where all succeed the queue is ready, with one descriptor
-- more, and `destroy` gives back the lock, the condition and that descriptor, whatever closing the
-- queue answers. An `errno` is not 0.
pub init-destroy :
    (sys : System) (lock_made condition_made : Status) (eventfd : Answer ℕ) (r : Completion)
    (fds : List ℕ)
    → is_proper eventfd ≡ true
    → let (opened, o, s) = init lock_made condition_made eventfd r fds in
      ((fd : ℕ) × (s ≡ ok)
        × IsReady fd fds opened o
        × ((destroy sys opened o).0 ≡ fds)
        × IsReleased (destroy sys opened o).1)
      ⊎ ((is_ok s ≡ false) × (opened ≡ fds) × IsReleased o)
init-destroy sys lock_made condition_made eventfd r fds h =
    elim (Bool-cases (is_ok lock_made && is_ok condition_made)) [
      | inl e ↦ with_both eventfd h e
      | inr e ↦ inr (init-refused lock_made condition_made eventfd r fds e)
    ]
  where
    with_both :
        (eventfd : Answer ℕ)
        → is_proper eventfd ≡ true
        → is_ok lock_made && is_ok condition_made ≡ true
        → let (opened, o, s) = init lock_made condition_made eventfd r fds in
          ((fd : ℕ) × (s ≡ ok)
            × IsReady fd fds opened o
            × ((destroy sys opened o).0 ≡ fds)
            × IsReleased (destroy sys opened o).1)
          ⊎ ((is_ok s ≡ false) × (opened ≡ fds) × IsReleased o)
    with_both (value fd) k e =
        let (s, ready) = init-all_made lock_made condition_made fd r fds e in
        let (opened, o, t) = init lock_made condition_made (value fd) r fds in
        let (gone, released) = destroy-ready sys fd fds opened o ready in
        inl (fd, s, ready, gone, released)
    with_both (errno e) k b = inr (init-no_eventfd lock_made condition_made e r fds b k)
