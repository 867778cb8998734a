-- ===== src/Tests/Jni.antt =====
-- A Java VM whose third call throws, two requests, and a record for the second.
use ckarta.Prelude.{
  ℕ, ◌≡◌, refl, true, false, not, ◌⊎◌, List, [], ◌∷◌, none, some, ◌==◌, if◌then◌else◌, arith,
}
use ckarta.Status.{ok, value}
use ckarta.Error.{ℤ, pos}
use ckarta.Request.{Descriptor, Request, finish, finish_attempt}
use ckarta.Completion.Queue.{Completion, Queue, pop}
use ckarta.Completion.Queue.Fifo.{IsValid, contents, row}
use ckarta.Jni.Env.{Env, Jvm, IsJvm}
use ckarta.Jni.Calls.{call_start, call_dispatch_async, call_stop}
use ckarta.Jni.Calls.Quiet.{IsBalanced}
use ckarta.Jni.Calls.Balance.{calls-AreBalanced}
use ckarta.Jni.Worker.{work}
use ckarta.Jni.Worker.Handed.{Handed, work-Handed}
use ckarta.Jni.Worker.Exception.{IsUseless, work-pending}
use ckarta.Jni.Bridge.{Values, are_valid, publish_completion}
use ckarta.Jni.Poll.{poll_completion, settle, matches, settle_one}
use ckarta.Smoke.{
  Turn, Answers, Ending, destroys_loop, shuts_down, destroys_runtime, destroys_config, smoke_run,
  completion_loop, poll_loop,
}
use ckarta.Smoke.Ends.{IsEnded, course_of, smoke_run-IsEnded}
use ckarta.Jni.Poll.Settled.{Outcome, poll-Outcome}
use ckarta.Jni.Poll.Published.{Delivered, all_ok, publish-poll}

abbrev third_throws : Jvm
third_throws n = record {
  reference = if n == 2 then none else some n;
  throws = n == 2;
  done = not (n == 2);
}

third_throws-IsJvm : IsJvm third_throws
third_throws-IsJvm n h = ground arith

abbrev fresh : Env
fresh = record { calls = 0; live = []; pending = false; misused = false; dispatched = [] }

abbrev after_throw : Env
after_throw = record fresh { pending = true }

abbrev descriptor_of : ℕ → Descriptor
descriptor_of id = record {
  abi_version = 2;
  struct_size = 80;
  feature_flags = 0;
  ownership_flags = 0;
  owner_token = 1;
  lifetime_token = 11;
  request_id = id;
  metadata = none;
  metadata_length = 0;
  body = none;
  body_length = 0;
}

abbrev request_in : ℕ → ℕ → Request
request_in state id = record {
  descriptor = descriptor_of id;
  state = state;
  error = ckarta.Error.init;
  metadata_storage = [];
}

abbrev two_pending : List Request
two_pending = request_in 0 8 ∷ request_in 0 9 ∷ []

calls-AreBalanced_example :
    IsBalanced [] fresh (call_start third_throws (pos 4096) fresh)
    × IsBalanced [] fresh (call_dispatch_async third_throws (descriptor_of 8) fresh)
    × IsBalanced [] fresh (call_stop third_throws fresh)
calls-AreBalanced_example =
    calls-AreBalanced third_throws (pos 4096) (descriptor_of 8) fresh third_throws-IsJvm refl

work-Handed_example :
    let (e1, left, t) = work third_throws fresh two_pending ok in
    Handed [] ok two_pending left e1.dispatched t
work-Handed_example = work-Handed third_throws fresh two_pending ok

work-pending_example :
    let (e1, left, t) = work third_throws after_throw two_pending ok in
    IsUseless after_throw two_pending ok e1 left t
work-pending_example = work-pending third_throws after_throw two_pending ok refl

abbrev done : Completion
done = record {
  request_id = 9;
  owner_token = 1;
  lifetime_token = 11;
  cycle_id = 1;
  result = pos 200;
  status = pos 0;
}

abbrev one_done : Queue
one_done = record { entries = λ i. done; head = 63; tail = 0; count = 1; closed = false }

abbrev empty : Queue
empty = record { entries = λ i. done; head = 63; tail = 63; count = 0; closed = false }

one_done-IsValid : IsValid one_done
one_done-IsValid = ground arith

empty-IsValid : IsValid empty
empty-IsValid = ground arith

empty-contents : contents empty ≡ []
unfolding contents row
empty-contents = refl

poll-Outcome_example :
    let (p, left, s) =
      poll_completion all_ok true done one_done (request_in 1 8 ∷ request_in 1 9 ∷ []) in
    ((contents one_done ≡ [])
      × (contents p ≡ [])
      × (left ≡ request_in 1 8 ∷ request_in 1 9 ∷ [])
      × (s ≡ ok))
    ⊎ ((c : Completion) × (contents one_done ≡ c ∷ contents p)
        × Outcome c (request_in 1 8 ∷ request_in 1 9 ∷ []) left s)
poll-Outcome_example =
    poll-Outcome all_ok done one_done (request_in 1 8) (request_in 1 9 ∷ []) one_done-IsValid refl

abbrev values : Values
values = record {
  request_id = pos 9;
  owner_token = pos 1;
  lifetime_token = pos 11;
  cycle_id = pos 1;
}

values-are_valid : are_valid values ≡ true
unfolding are_valid
values-are_valid = refl

publish-poll_example :
    (p : Queue) × (publish_completion all_ok empty [] (pos 4096) values (pos 200) (pos 0)
      ≡ some (p, ok))
    × (c : Completion) × (contents p ≡ c ∷ [])
    × (c.result ≡ pos 200)
    × (c.status ≡ pos 0)
    × Delivered values c
        (request_in 1 8 ∷ request_in 1 9 ∷ [])
        (poll_completion all_ok true done p (request_in 1 8 ∷ request_in 1 9 ∷ [])).1
        (poll_completion all_ok true done p (request_in 1 8 ∷ request_in 1 9 ∷ [])).2
publish-poll_example =
    publish-poll done empty (request_in 1 8) (request_in 1 9 ∷ []) (pos 4096) values (pos 200)
      (pos 0) empty-IsValid empty-contents refl refl values-are_valid

-- The records of both requests are there after the first wake-up.
abbrev record_of : ℕ → Completion
record_of id = record done { request_id = id }

abbrev queue_of : ℕ → Queue
queue_of id = record one_done { entries = λ i. record_of id }

abbrev turn_of : Queue → Turn
turn_of q = record { sys = all_ok; unwritten = done; queue = q }

abbrev two_running : List Request
two_running = request_in 1 8 ∷ request_in 1 9 ∷ []

abbrev two_completed : List Request
two_completed = request_in 4 8 ∷ request_in 4 9 ∷ []

abbrev answers : Answers
answers = record {
  runtime_init = ok;
  dispatched = (two_running, ok);
  loop_init = ok;
  loop_add = ok;
  rounds =
      record {
        waited = value 1;
        drained = ok;
        turns = turn_of (queue_of 8) ∷ turn_of (queue_of 9) ∷ turn_of empty ∷ [];
      }
      ∷ [];
  shutdown = ok;
  shutdown_again = ok;
}

abbrev ending : Ending
ending = record {
  actions = destroys_loop ∷ shuts_down ∷ shuts_down ∷ destroys_runtime ∷ destroys_config ∷ [];
  requests = two_completed;
  success = true;
}

run_ends : smoke_run answers two_pending ≡ some ending
unfolding smoke_run completion_loop poll_loop poll_completion settle matches settle_one pop finish
    finish_attempt
run_ends = refl

smoke_run-IsEnded_example : IsEnded (course_of answers) ending
smoke_run-IsEnded_example = smoke_run-IsEnded answers two_pending ending run_ends
