-- ===== src/Jni/Runtime/Measure.antt =====
-- The steps that are left to the two threads, and where a call of the runtime ends.
use ckarta.Prelude.{ℕ, suc, sym, ◌+◌, ◌<◌, ◌≤◌, ◌≡◌, refl, Bool, true, false, ◌⊎◌, inl, inr, arith}
use mathlib.Core.Path.{subst}
use ckarta.Status.{Status, ok}
use ckarta.Completion.Queue.{System}
use ckarta.Jni.Runtime.{
  Runtime, World, Caller, Bootstrap, Step, creating, starting, sleeping, woken, leaving, ended,
  creates, create_fails, wakes_for_nothing, init_wakes_for_nothing, init_join_fails, shuts_down,
  join_fails, shuts_down_again, destroys, starts, looks_again, leaves, init_enters,
  init_looks_again, init_fails, joined, left_behind, init_wait, enters, waits, wakes, fails, ready,
  joins, stopped, gone, shutdown_wait, wake_caller,
}

-- The caller is inside `init`, or at the join of `shutdown`.
abbrev pub is_inside : Caller → Bool
is_inside enters = true
is_inside waits = true
is_inside wakes = true
is_inside fails = true
is_inside ready = false
is_inside joins = true
is_inside stopped = false
is_inside left_behind = false
is_inside gone = false

abbrev pub caller_left : Caller → ℕ
caller_left enters = 3
caller_left waits = 2
caller_left wakes = 3
caller_left fails = 1
caller_left ready = 0
caller_left joins = 1
caller_left stopped = 0
caller_left left_behind = 0
caller_left gone = 0

abbrev pub bootstrap_left : Bootstrap → ℕ
bootstrap_left creating = 5
bootstrap_left starting = 4
bootstrap_left sleeping = 2
bootstrap_left woken = 3
bootstrap_left (leaving s) = 1
bootstrap_left ended = 0

abbrev pub steps_left : World → ℕ
steps_left w = caller_left w.caller + bootstrap_left w.bootstrap

-- The caller does not leave the join of `shutdown` but by the end of the other thread.
abbrev pub Follows : Caller → Caller → Type 0
Follows enters d = Unit
Follows waits d = Unit
Follows wakes d = Unit
Follows fails d = Unit
Follows ready d = Unit
Follows joins d = (d ≡ joins) ⊎ (d ≡ stopped)
Follows stopped d = d ≡ stopped
Follows left_behind d = Unit
Follows gone d = Unit

pub same-Follows : (c : Caller) → Follows c c
same-Follows enters = tt
same-Follows waits = tt
same-Follows wakes = tt
same-Follows fails = tt
same-Follows ready = tt
same-Follows joins = inl refl
same-Follows stopped = refl
same-Follows left_behind = tt
same-Follows gone = tt

pub wake-Follows : (c : Caller) → Follows c (wake_caller c)
wake-Follows enters = tt
wake-Follows waits = tt
wake-Follows wakes = tt
wake-Follows fails = tt
wake-Follows ready = tt
wake-Follows joins = inl refl
wake-Follows stopped = refl
wake-Follows left_behind = tt
wake-Follows gone = tt

-- Where a call that stands at the first place ends: `shutdown` with all of it done, `init` in either
-- way.
abbrev pub ComesOut : Caller → Caller → Type 0
ComesOut enters d = is_inside d ≡ false
ComesOut waits d = is_inside d ≡ false
ComesOut wakes d = is_inside d ≡ false
ComesOut fails d = is_inside d ≡ false
ComesOut ready d = is_inside d ≡ false
ComesOut joins d = d ≡ stopped
ComesOut stopped d = d ≡ stopped
ComesOut left_behind d = is_inside d ≡ false
ComesOut gone d = is_inside d ≡ false

pub out-is_inside : (c d : Caller) → ComesOut c d → is_inside d ≡ false
out-is_inside enters d h = h
out-is_inside waits d h = h
out-is_inside wakes d h = h
out-is_inside fails d h = h
out-is_inside ready d h = h
out-is_inside joins d h = rw h refl
out-is_inside stopped d h = rw h refl
out-is_inside left_behind d h = h
out-is_inside gone d h = h

pub out-Follows : (c d last : Caller) → Follows c d → ComesOut d last → ComesOut c last
out-Follows enters d last f h = out-is_inside d last h
out-Follows waits d last f h = out-is_inside d last h
out-Follows wakes d last f h = out-is_inside d last h
out-Follows fails d last f h = out-is_inside d last h
out-Follows ready d last f h = out-is_inside d last h
out-Follows joins d last (inl e) h = subst (λ x. ComesOut x last) e h
out-Follows joins d last (inr e) h = subst (λ x. ComesOut x last) e h
out-Follows stopped d last e h = subst (λ x. ComesOut x last) e h
out-Follows left_behind d last f h = out-is_inside d last h
out-Follows gone d last f h = out-is_inside d last h

-- The steps that a thread takes once it is run: no wake-up for nothing, no failed join, and no new
-- call of the caller.
abbrev pub is_due : {w u : World} → Step w u → Bool
is_due (creates e) = true
is_due (create_fails s h e) = true
is_due (starts s e) = true
is_due (wakes_for_nothing e) = false
is_due (looks_again e) = true
is_due (leaves sys stop destroyed s e) = true
is_due (init_enters e) = true
is_due (init_wakes_for_nothing e) = false
is_due (init_looks_again e) = true
is_due (init_fails e f) = true
is_due (init_join_fails e) = false
is_due (shuts_down sys calls e) = false
is_due (joined e f) = true
is_due (join_fails e) = false
is_due (shuts_down_again sys calls e) = false
is_due (destroys e) = false

-- In whatever order the threads take their due steps, a call that stands at `c` comes out: it is out,
-- or some due step can be taken, and after each one it comes out.
pub data Arrives (c : Caller) : World → Type 0 where
  arrived : {w : World} → ComesOut c w.caller → Arrives c w
  goes_on :
      {w : World}
      → (u : World) × (s : Step w u) × (is_due s ≡ true)
      → ((u : World) (s : Step w u) → is_due s ≡ true → Arrives c u)
      → Arrives c w

pub arrives_from :
    (c d : Caller) (w : World)
    → ((last : Caller) → ComesOut d last → ComesOut c last)
    → Arrives d w
    → Arrives c w
arrives_from c d w h (arrived out) = arrived (h _ out)
arrives_from c d w h (goes_on some_step next) =
    goes_on some_step λ u s due. arrives_from c d u h (next u s due)

abbrev pub any_system : System
any_system = record {
  lock = ok;
  unlock = ok;
  signal_not_full = ok;
  broadcast_not_full = ok;
  signal_notification = ok;
}

wake-left : (c : Caller) → caller_left (wake_caller c) ≤ suc (caller_left c)
wake-left enters = omega arith
wake-left waits = omega arith
wake-left wakes = omega arith
wake-left fails = omega arith
wake-left ready = omega arith
wake-left joins = omega arith
wake-left stopped = omega arith
wake-left left_behind = omega arith
wake-left gone = omega arith

shutdown_wait-left : (r : Runtime) (s : Status) → bootstrap_left (shutdown_wait r s) ≤ 2
unfolding shutdown_wait
shutdown_wait-left r s = ground arith

init_wait-left : (r : Runtime) → caller_left (init_wait r) ≤ 2
unfolding init_wait
init_wait-left r = ground arith

at-Follows : (c d w : Caller) → w ≡ c → Follows c d → Follows w d
at-Follows c d w e f = subst (λ x. Follows x d) (sym e) f

-- A due step brings its thread on, and keeps the caller on its way.
pub due-less :
    {w u : World} (s : Step w u)
    → is_due s ≡ true
    → (steps_left u < steps_left w) × Follows w.caller u.caller
due-less {w} (creates e) h = (ground arith, same-Follows w.caller)
due-less {w} (create_fails s k e) h = (ground (arith, wake-left w.caller), wake-Follows w.caller)
due-less {w} (starts s e) h =
    (ground (arith, wake-left w.caller, shutdown_wait-left w.runtime s), wake-Follows w.caller)
due-less (wakes_for_nothing e) h = cc
due-less {w} (looks_again e) h =
    (ground (arith, shutdown_wait-left w.runtime w.runtime.bootstrap_status), same-Follows w.caller)
due-less {w} (leaves sys stop destroyed s e) h = (ground arith, same-Follows w.caller)
due-less {w} (init_enters e) h =
    (ground (arith, init_wait-left w.runtime), at-Follows _ _ w.caller e tt)
due-less (init_wakes_for_nothing e) h = cc
due-less {w} (init_looks_again e) h =
    (ground (arith, init_wait-left w.runtime), at-Follows _ _ w.caller e tt)
due-less {w} (init_fails e f) h = (ground arith, at-Follows _ _ w.caller e tt)
due-less (init_join_fails e) h = cc
due-less (shuts_down sys calls e) h = cc
due-less {w} (joined e f) h = (ground arith, at-Follows _ _ w.caller e (inr refl))
due-less (join_fails e) h = cc
due-less (shuts_down_again sys calls e) h = cc
due-less (destroys e) h = cc
