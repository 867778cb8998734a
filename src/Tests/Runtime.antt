-- ===== src/Tests/Runtime.antt =====
-- The start of the runtime, a start that goes well, and a join in `shutdown`.
use ckarta.Prelude.{◌≡◌, refl, true, false, ◌⊎◌, [], ◌∷◌, none}
use ckarta.Status.{minus_one, ok, value}
use ckarta.Error.{pos}
use ckarta.Completion.Queue.{Completion, Queue, System, is_ok}
use ckarta.Completion.Queue as Queue
use ckarta.Jni.Runtime.{World, Reach, created, creates, here, next, starting}
use ckarta.Jni.Runtime.Place.{has_ended}
use ckarta.Jni.Runtime.Sound.{Reach-IsHeld}
use ckarta.Jni.Runtime.Arrival.{Reach-arrives}
use ckarta.Jni.Runtime.Measure.{Arrives}
use ckarta.Jni.Setup.{Held, Answers, runtime_init, runtime_destroy, IsEmpty, runtime_init-Outcome}

abbrev zero_record : Completion
zero_record = record {
  request_id = 0;
  owner_token = 0;
  lifetime_token = 0;
  cycle_id = 0;
  result = pos 0;
  status = pos 0;
}

abbrev empty_queue : Queue
empty_queue = Queue.init zero_record

-- The VM is there.
abbrev with_vm : World
with_vm = record (created empty_queue) {
  runtime = record (created empty_queue).runtime { vm = true };
  bootstrap = starting;
}

abbrev reaches_vm : Reach empty_queue with_vm
reaches_vm = next here (creates refl)

Reach-IsHeld_example : (with_vm.runtime.held ≡ true) ⊎ (has_ended with_vm.bootstrap ≡ true)
Reach-IsHeld_example = Reach-IsHeld reaches_vm

Reach-arrives_example : Arrives with_vm.caller with_vm
Reach-arrives_example = Reach-arrives reaches_vm

abbrev empty_held : Held
empty_held = record {
  queue = record {
    queue = empty_queue;
    lock = false;
    not_full = false;
    notification = record { fd = none; initialized = false };
    initialized = false;
  };
  queue_initialized = false;
  lock = false;
  condition = false;
  sync_initialized = false;
  thread_started = false;
}

-- The Java VM does not start.
abbrev no_vm : Answers
no_vm = record {
  queue_lock = ok;
  queue_condition = ok;
  eventfd = value 6;
  lock = ok;
  condition = ok;
  thread = ok;
  bootstrap_status = minus_one;
  join = ok;
}

abbrev works : System
works = record {
  lock = ok;
  unlock = ok;
  signal_not_full = ok;
  broadcast_not_full = ok;
  signal_notification = ok;
}

runtime_init-Outcome_example :
    let (opened, h, s) = runtime_init works no_vm zero_record (46 ∷ []) empty_held (0 ∷ []) in
    ((s ≡ ok)
      × (h.thread_started ≡ true)
      × ((runtime_destroy works true opened h).0 ≡ 0 ∷ [])
      × IsEmpty (runtime_destroy works true opened h).1)
    ⊎ ((is_ok s ≡ false) × (opened ≡ 0 ∷ []) × IsEmpty h)
runtime_init-Outcome_example =
    runtime_init-Outcome works no_vm zero_record 46 [] empty_held (0 ∷ []) refl refl
