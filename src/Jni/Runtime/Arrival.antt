-- ===== src/Jni/Runtime/Arrival.antt =====
-- The caller does not wait forever: no wake-up is lost, whatever the order of the steps.
use ckarta.Prelude.{ℕ, zero, suc, ◌<◌, ◌≡◌, refl, true, false, inl, inr, arith, Bool-cases}
use ckarta.Status.{Status, ok}
use ckarta.Completion.Queue.{Queue}
use ckarta.Jni.Runtime.{
  World, Caller, Bootstrap, Step, Reach, creating, starting, sleeping, woken, leaving, ended,
  enters, waits, wakes, fails, ready, joins, stopped, left_behind, gone, creates, starts,
  looks_again, leaves, init_enters, init_looks_again, init_fails, joined, next,
}
use ckarta.Jni.Runtime.Place.{IsPlaced, is_before, in_loop, sleeps}
use ckarta.Jni.Runtime.Sound.{IsSound, Reach-IsSound}
use ckarta.Jni.Runtime.Measure.{
  is_inside, steps_left, ComesOut, out-Follows, is_due, Arrives, arrived, goes_on, arrives_from,
  any_system, due-less,
}

abbrev HasDue : World → Type 0
HasDue w = (u : World) × (s : Step w u) × (is_due s ≡ true)

leaving-HasDue : (w : World) (s : Status) → w.bootstrap ≡ leaving s → HasDue w
leaving-HasDue w s e = (_, leaves any_system ok ok s e, refl)

-- Before the status is told, the bootstrap thread can go on.
before-HasDue : (w : World) (b : Bootstrap) → w.bootstrap ≡ b → is_before b ≡ true → HasDue w
before-HasDue w creating e h = (_, creates e, refl)
before-HasDue w starting e h = (_, starts ok e, refl)
before-HasDue w sleeping e h = ground arith
before-HasDue w woken e h = ground arith
before-HasDue w (leaving s) e h = ground arith
before-HasDue w ended e h = ground arith

not_told : (w : World) → IsSound w → w.runtime.bootstrap_done ≡ false → HasDue w
not_told w v h = before-HasDue w w.bootstrap refl (ground (arith, v.done_when))

-- `init` fails once the bootstrap thread is at its end.
failing-HasDue :
    (w : World) (b : Bootstrap)
    → w.caller ≡ fails
    → w.bootstrap ≡ b
    → is_before b ≡ false
    → in_loop b ≡ false
    → HasDue w
failing-HasDue w creating e f h k = ground arith
failing-HasDue w starting e f h k = ground arith
failing-HasDue w sleeping e f h k = ground arith
failing-HasDue w woken e f h k = ground arith
failing-HasDue w (leaving s) e f h k = leaving-HasDue w s f
failing-HasDue w ended e f h k = (_, init_fails e f, refl)

joining-HasDue :
    (w : World) (b : Bootstrap)
    → w.caller ≡ joins
    → w.bootstrap ≡ b
    → is_before b ≡ false
    → sleeps b ≡ false
    → HasDue w
joining-HasDue w creating e f h k = ground arith
joining-HasDue w starting e f h k = ground arith
joining-HasDue w sleeping e f h k = ground arith
joining-HasDue w woken e f h k = (_, looks_again f, refl)
joining-HasDue w (leaving s) e f h k = leaving-HasDue w s f
joining-HasDue w ended e f h k = (_, joined e f, refl)

at-HasDue :
    (w : World) (c : Caller)
    → IsSound w
    → w.caller ≡ c
    → IsPlaced w.runtime w.bootstrap c
    → is_inside c ≡ true
    → HasDue w
unfolding IsPlaced
at-HasDue w enters v e p h = (_, init_enters e, refl)
at-HasDue w waits v e p h = not_told w v p.1
at-HasDue w wakes v e p h = (_, init_looks_again e, refl)
at-HasDue w fails v e p h =
    failing-HasDue w w.bootstrap e refl (ground (arith, v.done_when)) (ground (arith, v.loop_when))
at-HasDue w ready v e p h = ground arith
at-HasDue w joins v e (held, done, requested, awake) h =
    joining-HasDue w w.bootstrap e refl (ground (arith, v.done_when)) awake
at-HasDue w stopped v e p h = ground arith
at-HasDue w left_behind v e p h = ground arith
at-HasDue w gone v e p h = ground arith

out_already : (c : Caller) → is_inside c ≡ false → ComesOut c c
out_already enters h = h
out_already waits h = h
out_already wakes h = h
out_already fails h = h
out_already ready h = h
out_already joins h = ground arith
out_already stopped h = refl
out_already left_behind h = h
out_already gone h = h

-- Fewer than `n` due steps are left.
arrives : {q : Queue} (n : ℕ) (w : World) → Reach q w → steps_left w < n → Arrives w.caller w
arrives zero w r h = ground arith
arrives (suc n) w r h = elim (Bool-cases (is_inside w.caller)) [
  | inl i ↦
      let v = Reach-IsSound r in
      goes_on (at-HasDue w w.caller v refl v.place i) λ u s due.
        let (less, follows) = due-less s due in
        arrives_from w.caller u.caller u (λ last. out-Follows w.caller u.caller last follows)
          (arrives n u (next r s) (omega (arith, less, h)))
  | inr o ↦ arrived (out_already w.caller o)
]

-- No wake-up is lost and there is no deadlock: from every reachable state, whatever the order in
-- which the two threads take their steps, with no wake-up for nothing and no failed join among
-- them, a caller that is in `init` comes out of it, and one that is at the join of `shutdown` comes
-- to the end of a complete shutdown; as long as it is not out, some such step can be taken.
pub Reach-arrives : {q : Queue} {w : World} → Reach q w → Arrives w.caller w
Reach-arrives {q} {w} r = arrives (suc (steps_left w)) w r (omega arith)
