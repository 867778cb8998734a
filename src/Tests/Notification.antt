-- ===== src/Tests/Notification.antt =====
-- A counter as the eventfd, and a record that comes while the consumer waits.
use ckarta.Prelude.{ℕ, suc, ◌≡◌, refl, true, false, not, inl, some, ◌==◌, if◌then◌else◌, arith}
use ckarta.Status.{ok, value, errno, eagain}
use ckarta.Error.{pos}
use ckarta.Completion.Notification.{Notification, EventFd, IsEventFd, signal, drain}
use ckarta.Completion.Notification.Drain.{drain-ends}
use ckarta.Completion.Queue.{Completion, System, init, push, append}
use ckarta.Completion.Queue.Wakeup.{Machine, waiting, pushed, pushes, here, next, Reach-IsAwake}

abbrev counter : EventFd
counter = record {
  State = ℕ;
  is_readable = λ n. not (n == 0);
  write_one = λ n. (suc n, value 8);
  read = λ n. if n == 0 then (n, errno eagain) else (0, value 8);
}

counter-IsEventFd : IsEventFd counter
counter-IsEventFd = record {
  write_answers = λ s. inl refl;
  write_signals = λ s. ground arith;
  read_takes = λ s h. ground arith;
  read_again = λ s h. ground arith;
}

abbrev notification : Notification
notification = record { fd = some 5; initialized = true }

drain-ends_example :
    (t : ℕ) × (drain counter 2 notification 3 ≡ some (t, ok)) × (not (t == 0) ≡ false)
drain-ends_example = drain-ends counter notification 0 3 counter-IsEventFd refl

abbrev record_one : Completion
record_one = record {
  request_id = 1;
  owner_token = 1;
  lifetime_token = 1;
  cycle_id = 1;
  result = pos 0;
  status = pos 0;
}

abbrev works : System
works = record {
  lock = ok;
  unlock = ok;
  signal_not_full = ok;
  broadcast_not_full = ok;
  signal_notification = ok;
}

abbrev at_rest : Machine counter
at_rest = record { queue = init record_one; eventfd = 0; consumer = waiting }

abbrev with_record : Machine counter
with_record = pushed counter works notification at_rest record_one

with_record-waits : with_record.consumer ≡ waiting
unfolding pushed push append signal init
with_record-waits = refl

with_record-count : with_record.queue.count ≡ 1
unfolding pushed push append signal init
with_record-count = refl

none_yet : at_rest.queue.count ≡ 0
unfolding init
none_yet = refl

Reach-IsAwake_example : counter.is_readable with_record.eventfd ≡ true
Reach-IsAwake_example =
    Reach-IsAwake counter counter-IsEventFd refl none_yet (next here (pushes works record_one))
      with_record-waits (omega (arith, with_record-count))
