-- ===== src/Jni/Runtime/Sound.antt =====
-- What holds of the two threads in every state that they reach.
use ckarta.Prelude.{◌≡◌, refl, sym, ap, ◌∙◌, true, false, not, ◌⊎◌, inl, inr, Option, if_both}
use mathlib.Core.Path.{subst}
use ckarta.Status.{Status}
use ckarta.Completion.Queue.{Queue, System, is_ok, close}
use ckarta.Jni.Runtime.{
  Runtime, World, Caller, Bootstrap, Calls, Step, Reach, creates, create_fails, starts,
  wakes_for_nothing, looks_again, leaves, init_enters, init_wakes_for_nothing, init_looks_again,
  init_fails, init_join_fails, shuts_down, joined, join_fails, shuts_down_again, destroys, here,
  next, starting, woken, ended, enters, waits, wakes, fails, ready, joins, stopped, left_behind,
  gone, shutdown_wait, shutdown, leave, closes_well, wake_bootstrap, publish_status,
}
use ckarta.Jni.Runtime.Place.{
  is_before, in_loop, has_ended, IsPlaced, moves-IsPlaced, publishes-IsPlaced, init_wait-IsPlaced,
  shutdown_wait-cases, leave_keeps, woken-cases,
}

pub record IsSound (w : World) : Type 0 where
  pub done_when : w.runtime.bootstrap_done ≡ not (is_before w.bootstrap)
  pub loop_when : (in_loop w.bootstrap ≡ false) ⊎ (is_ok w.runtime.bootstrap_status ≡ true)
  pub place : IsPlaced w.runtime w.bootstrap w.caller

shutdown-IsSound :
    (sys : System) (calls : Calls) (w : World)
    → IsSound w
    → w.caller ≡ ready
    → IsSound (shutdown sys calls w).0
unfolding shutdown IsPlaced
shutdown-IsSound sys calls w v e =
    let (held, done) = subst (λ c. IsPlaced w.runtime w.bootstrap c) e v.place in
    let (before, inside, awake) = woken-cases w.bootstrap in
    let requested : Runtime = record w.runtime {
      shutdown_requested = true;
      queue = (close sys w.runtime.queue).0;
    } in
    let place : IsPlaced requested w.bootstrap w.caller =
      subst (λ c. IsPlaced requested w.bootstrap c) (sym e) (held, done) in
    let place_awake : IsPlaced requested (wake_bootstrap w.bootstrap) w.caller =
      subst (λ c. IsPlaced requested (wake_bootstrap w.bootstrap) c) (sym e) (held, done) in
    let asked : IsSound (record w { runtime = requested }) = record {
      done_when = v.done_when;
      loop_when = v.loop_when;
      place = place;
    } in
    let done_awake = v.done_when ∙ ap not (sym before) in
    let loop_awake =
      subst (λ b. (b ≡ false) ⊎ (is_ok w.runtime.bootstrap_status ≡ true)) (sym inside)
        v.loop_when in
    let keeps : World × Option Status → Type 0 = λ x. IsSound x.0 in
    if_both keeps (not (is_ok calls.lock)) v (
      if_both keeps w.runtime.shutdown_complete v (
        if_both keeps (not (closes_well (close sys w.runtime.queue).1)) asked (
          if_both keeps (not (is_ok calls.broadcast)) asked (
            if_both keeps (not (is_ok calls.unlock))
              (record { done_when = done_awake; loop_when = loop_awake; place = place_awake })
              (record {
                done_when = done_awake;
                loop_when = loop_awake;
                place = (held, done, refl, awake);
              })))))

-- A shutdown that is complete is not done again.
pub shutdown_complete :
    (sys : System) (calls : Calls) (w : World)
    → w.runtime.shutdown_complete ≡ true
    → (shutdown sys calls w).0 ≡ w
unfolding shutdown
shutdown_complete sys calls w h =
    let keeps : World × Option Status → Type 0 = λ x. x.0 ≡ w in
    if_both keeps (not (is_ok calls.lock)) refl (simp h refl)

Step-IsSound : {w u : World} → IsSound w → Step w u → IsSound u
unfolding IsPlaced
Step-IsSound {w} v (creates e) = record {
  done_when = v.done_when ∙ rw e refl;
  loop_when = inl refl;
  place =
      moves-IsPlaced w.runtime (record w.runtime { vm = true }) w.bootstrap starting w.caller
        v.place refl refl refl refl (rw e refl) (inl refl);
}
Step-IsSound {w} v (create_fails s h e) = record {
  done_when = refl;
  loop_when = inl refl;
  place =
      publishes-IsPlaced w.runtime (publish_status w.runtime s) w.bootstrap ended w.caller v.place
        refl refl (v.done_when ∙ rw e refl) (rw e refl);
}
Step-IsSound {w} v (starts s e) =
    let (before, inside, asleep) = shutdown_wait-cases w.runtime s in
    record {
      done_when = ap not (sym before);
      loop_when = inside;
      place =
          publishes-IsPlaced w.runtime (publish_status w.runtime s) w.bootstrap
            (shutdown_wait w.runtime s) w.caller v.place refl refl (v.done_when ∙ rw e refl)
            (rw e refl);
    }
Step-IsSound {w} v (wakes_for_nothing e) = record {
  done_when = v.done_when ∙ rw e refl;
  loop_when =
      subst (λ b. (in_loop b ≡ false) ⊎ (is_ok w.runtime.bootstrap_status ≡ true)) e v.loop_when;
  place =
      moves-IsPlaced w.runtime w.runtime w.bootstrap woken w.caller v.place refl refl refl refl
        (rw e refl) (inl refl);
}
Step-IsSound {w} v (looks_again e) =
    let s = w.runtime.bootstrap_status in
    let (before, inside, asleep) = shutdown_wait-cases w.runtime s in
    record {
      done_when = v.done_when ∙ rw e (ap not (sym before));
      loop_when = inside;
      place =
          moves-IsPlaced w.runtime w.runtime w.bootstrap (shutdown_wait w.runtime s) w.caller
            v.place refl refl refl refl (rw e refl) asleep;
    }
Step-IsSound {w} v (leaves sys stop destroyed s e) =
    let (held, requested, done, status) = leave_keeps sys stop destroyed w.runtime s in
    record {
      done_when = done ∙ (v.done_when ∙ rw e refl);
      loop_when = inl refl;
      place =
          moves-IsPlaced w.runtime (leave sys stop destroyed w.runtime s) w.bootstrap ended w.caller
            v.place held requested done status (rw e refl) (inl refl);
    }
Step-IsSound {w} v (init_enters e) =
    let (held, requested) = subst (λ c. IsPlaced w.runtime w.bootstrap c) e v.place in
    record {
      done_when = v.done_when;
      loop_when = v.loop_when;
      place = init_wait-IsPlaced w.runtime w.bootstrap held requested;
    }
Step-IsSound {w} v (init_wakes_for_nothing e) =
    let (held, waiting, requested) = subst (λ c. IsPlaced w.runtime w.bootstrap c) e v.place in
    record { done_when = v.done_when; loop_when = v.loop_when; place = (held, requested) }
Step-IsSound {w} v (init_looks_again e) =
    let (held, requested) = subst (λ c. IsPlaced w.runtime w.bootstrap c) e v.place in
    record {
      done_when = v.done_when;
      loop_when = v.loop_when;
      place = init_wait-IsPlaced w.runtime w.bootstrap held requested;
    }
Step-IsSound {w} v (init_fails e f) = record {
  done_when = v.done_when;
  loop_when = v.loop_when;
  place = (rw f refl, refl);
}
Step-IsSound {w} v (init_join_fails e) =
    let (held, done, failed) = subst (λ c. IsPlaced w.runtime w.bootstrap c) e v.place in
    record { done_when = v.done_when; loop_when = v.loop_when; place = held }
Step-IsSound {w} v (shuts_down sys calls e) = shutdown-IsSound sys calls w v e
Step-IsSound {w} v (joined e f) =
    let (held, done, requested, asleep) = subst (λ c. IsPlaced w.runtime w.bootstrap c) e v.place in
    record {
      done_when = v.done_when;
      loop_when = v.loop_when;
      place = (held, done, rw f refl, refl);
    }
Step-IsSound {w} v (join_fails e) =
    let (held, done, requested, asleep) = subst (λ c. IsPlaced w.runtime w.bootstrap c) e v.place in
    record { done_when = v.done_when; loop_when = v.loop_when; place = (held, done) }
Step-IsSound {w} v (shuts_down_again sys calls e) =
    let (held, done, over, complete) = subst (λ c. IsPlaced w.runtime w.bootstrap c) e v.place in
    subst IsSound (sym (shutdown_complete sys calls w complete)) v
Step-IsSound {w} v (destroys e) =
    let (held, done, over, complete) = subst (λ c. IsPlaced w.runtime w.bootstrap c) e v.place in
    record { done_when = v.done_when; loop_when = v.loop_when; place = (over, refl) }

pub Reach-IsSound : {q : Queue} {w : World} → Reach q w → IsSound w
unfolding IsPlaced
Reach-IsSound here = record { done_when = refl; loop_when = inl refl; place = (refl, refl) }
Reach-IsSound (next r s) = Step-IsSound (Reach-IsSound r) s

held_at :
    (r : Runtime) (b : Bootstrap) (c : Caller)
    → IsPlaced r b c
    → (r.held ≡ true) ⊎ (has_ended b ≡ true)
unfolding IsPlaced
held_at r b enters p = inl p.0
held_at r b waits p = inl p.0
held_at r b wakes p = inl p.0
held_at r b fails p = inl p.0
held_at r b ready p = inl p.0
held_at r b joins p = inl p.0
held_at r b stopped p = inl p.0
held_at r b left_behind p = inl p
held_at r b gone p = inr p.0

-- The lock, the condition and the queue of the runtime are there as long as the bootstrap thread may
-- use them: in every reachable state they are held, or that thread has ended.
pub Reach-IsHeld :
    {q : Queue} {w : World} → Reach q w → (w.runtime.held ≡ true) ⊎ (has_ended w.bootstrap ≡ true)
Reach-IsHeld {q} {w} r = held_at w.runtime w.bootstrap w.caller (Reach-IsSound r).place
