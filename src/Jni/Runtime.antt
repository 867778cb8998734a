-- ===== src/Jni/Runtime.antt =====
-- The life of the runtime in c/jni/ck_jni_runtime.c: the bootstrap thread, which holds the Java VM,
-- and the thread that calls init, shutdown and destroy. What the system and the VM answer is a
-- parameter of each step.
pub mod Arrival
pub mod Measure
pub mod Place
pub mod Sound
use ckarta.Prelude.{
  ℕ, ◌≡◌, Bool, true, false, not, ◌&&◌, ◌||◌, Option, none, some, ◌==◌, if◌then◌else◌,
}
use ckarta.Status.{Status, minus_one, code, ok}
use ckarta.Completion.Queue.{Queue, System, is_ok, close}

-- `held` tells that the lock, the condition and the completion queue are made.
pub record Runtime : Type 0 where
  pub vm : Bool
  pub bootstrap_done : Bool
  pub bootstrap_status : Status
  pub shutdown_requested : Bool
  pub shutdown_status : Status
  pub shutdown_complete : Bool
  pub queue : Queue
  pub held : Bool

-- Where the bootstrap thread is: before the VM is there, in the call of `start`, in its wait for the
-- shutdown (asleep, or woken), behind the loop with the status of the start, or at its end.
pub data Bootstrap : Type 0 where
  creating starting sleeping woken : Bootstrap
  leaving : Status → Bootstrap
  ended : Bootstrap

-- Where the caller is: in `init`, before the wait or in it; at the join of an `init` that fails; after
-- an `init` that succeeds, at the join of `shutdown`, or after it; behind a failed join of `init`,
-- with all of it still held; or with nothing left.
pub data Caller : Type 0 where
  enters waits wakes fails ready joins stopped left_behind gone : Caller

-- The caller's wait in `init`, once it has the lock.
unfoldable pub init_wait : Runtime → Caller
init_wait r =
    if not r.bootstrap_done then waits else if is_ok r.bootstrap_status then ready else fails

-- What a broadcast does to a thread that waits.
abbrev pub wake_caller : Caller → Caller
wake_caller waits = wakes
wake_caller enters = enters
wake_caller wakes = wakes
wake_caller fails = fails
wake_caller ready = ready
wake_caller joins = joins
wake_caller stopped = stopped
wake_caller left_behind = left_behind
wake_caller gone = gone

abbrev pub wake_bootstrap : Bootstrap → Bootstrap
wake_bootstrap creating = creating
wake_bootstrap starting = starting
wake_bootstrap sleeping = woken
wake_bootstrap woken = woken
wake_bootstrap (leaving s) = leaving s
wake_bootstrap ended = ended

-- The bootstrap thread's loop, with the lock.
unfoldable pub shutdown_wait : Runtime → Status → Bootstrap
shutdown_wait r start_status =
    if not r.shutdown_requested && is_ok start_status then sleeping else leaving start_status

abbrev pub publish_status : Runtime → Status → Runtime
publish_status r s = record r { bootstrap_status = s; bootstrap_done = true }

-- A queue that is closed already is closed all the same.
abbrev pub closes_well : Status → Bool
closes_well (code n) = n == 0 || n == 1
closes_well Status.minus_one = false
closes_well Status.minus_two = false
closes_well Status.minus_three = false

-- The first failure is the one that stays.
abbrev pub first_failure : Status → Status → Status → Status
first_failure kept s becomes = if not (is_ok s) && is_ok kept then becomes else kept

-- The end of the bootstrap thread: the queue is closed and Java stopped if the start went well, and
-- the VM is destroyed.
unfoldable pub leave : System → Status → Status → Runtime → Status → Runtime
leave sys stop destroyed r start_status =
    let (q, result) = close sys r.queue in
    let closed = if not (closes_well result) then result else r.shutdown_status in
    let stopped = first_failure closed stop minus_one in
    if is_ok start_status
    then record r { queue = q; shutdown_status = first_failure stopped destroyed destroyed }
    else record r { shutdown_status = first_failure start_status destroyed destroyed }

pub record World : Type 0 where
  pub runtime : Runtime
  pub caller : Caller
  pub bootstrap : Bootstrap

-- What the calls of `shutdown` answer before its join.
pub record Calls : Type 0 where
  pub lock : Status
  pub broadcast : Status
  pub unlock : Status

-- `shutdown` up to its join; the status is that of a call that returns before it.
unfoldable pub shutdown : System → Calls → World → World × Option Status
shutdown sys calls w =
    let requested = record w.runtime {
      shutdown_requested = true;
      queue = (close sys w.runtime.queue).0;
    } in
    let result = (close sys w.runtime.queue).1 in
    let awake = wake_bootstrap w.bootstrap in
    if not (is_ok calls.lock)
    then (w, some calls.lock)
    else if w.runtime.shutdown_complete
    then (w, some w.runtime.shutdown_status)
    else if not (closes_well result)
    then (record w { runtime = requested }, some result)
    else if not (is_ok calls.broadcast)
    then (record w { runtime = requested }, some calls.broadcast)
    else if not (is_ok calls.unlock)
    then (record w { runtime = requested; bootstrap = awake }, some calls.unlock)
    else (record w { runtime = requested; bootstrap = awake; caller = joins }, none)

-- A step is one critical section of the runtime's lock, or one stretch of code outside it. A call on
-- the lock or the condition that fails in `init` or in the bootstrap thread aborts the program. The
-- steps to `gone` clear the memory, which nobody reads from then on: the fields but `held` are left.
pub data Step (w : World) : World → Type 0 where
  creates :
      w.bootstrap ≡ creating
      → Step w (record w { runtime = record w.runtime { vm = true }; bootstrap = starting })
  create_fails :
      (s : Status)
      → is_ok s ≡ false
      → w.bootstrap ≡ creating
      → Step w (record w {
        runtime = publish_status w.runtime s;
        caller = wake_caller w.caller;
        bootstrap = ended;
      })
  starts :
      (s : Status)
      → w.bootstrap ≡ starting
      → Step w (record w {
        runtime = publish_status w.runtime s;
        caller = wake_caller w.caller;
        bootstrap = shutdown_wait w.runtime s;
      })
  wakes_for_nothing : w.bootstrap ≡ sleeping → Step w (record w { bootstrap = woken })
  looks_again :
      w.bootstrap ≡ woken
      → Step w (record w { bootstrap = shutdown_wait w.runtime w.runtime.bootstrap_status })
  leaves :
      (sys : System) (stop destroyed start_status : Status)
      → w.bootstrap ≡ leaving start_status
      → Step w (record w {
        runtime = leave sys stop destroyed w.runtime start_status;
        bootstrap = ended;
      })
  init_enters : w.caller ≡ enters → Step w (record w { caller = init_wait w.runtime })
  init_wakes_for_nothing : w.caller ≡ waits → Step w (record w { caller = wakes })
  init_looks_again : w.caller ≡ wakes → Step w (record w { caller = init_wait w.runtime })
  init_fails :
      w.caller ≡ fails
      → w.bootstrap ≡ ended
      → Step w (record w { runtime = record w.runtime { held = false }; caller = gone })
  init_join_fails : w.caller ≡ fails → Step w (record w { caller = left_behind })
  shuts_down : (sys : System) (calls : Calls) → w.caller ≡ ready → Step w (shutdown sys calls w).0
  joined :
      w.caller ≡ joins
      → w.bootstrap ≡ ended
      → Step w
          (record w { runtime = record w.runtime { shutdown_complete = true }; caller = stopped })
  join_fails : w.caller ≡ joins → Step w (record w { caller = ready })
  shuts_down_again :
      (sys : System) (calls : Calls) → w.caller ≡ stopped → Step w (shutdown sys calls w).0
  destroys :
      w.caller ≡ stopped
      → Step w (record w { runtime = record w.runtime { held = false }; caller = gone })

-- After `pthread_create` of `init`, with the memory of the runtime set to 0.
abbrev pub created : Queue → World
created q = record {
  runtime = record {
    vm = false;
    bootstrap_done = false;
    bootstrap_status = ok;
    shutdown_requested = false;
    shutdown_status = ok;
    shutdown_complete = false;
    queue = q;
    held = true;
  };
  caller = enters;
  bootstrap = creating;
}

pub data Reach (q : Queue) : World → Type 0 where
  here : Reach q (created q)
  next : {w u : World} → Reach q w → Step w u → Reach q u
