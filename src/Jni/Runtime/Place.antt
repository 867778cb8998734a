-- ===== src/Jni/Runtime/Place.antt =====
-- What the place of each thread says of the runtime, and how a step of one thread moves the other.
use ckarta.Prelude.{◌≡◌, refl, Bool, true, false, not, ◌⊎◌, if◌then◌else◌, arith, if_both}
use ckarta.Status.{Status}
use ckarta.Completion.Queue.{System, is_ok}
use ckarta.Jni.Runtime.{
  Runtime, Caller, Bootstrap, creating, starting, sleeping, woken, leaving, ended, enters, waits,
  wakes, fails, ready, joins, stopped, left_behind, gone, init_wait, shutdown_wait, leave,
  wake_bootstrap, wake_caller,
}

-- The bootstrap thread has not told the status of the start yet.
abbrev pub is_before : Bootstrap → Bool
is_before creating = true
is_before starting = true
is_before sleeping = false
is_before woken = false
is_before (leaving s) = false
is_before ended = false

abbrev pub in_loop : Bootstrap → Bool
in_loop creating = false
in_loop starting = false
in_loop sleeping = true
in_loop woken = true
in_loop (leaving s) = false
in_loop ended = false

abbrev pub sleeps : Bootstrap → Bool
sleeps creating = false
sleeps starting = false
sleeps sleeping = true
sleeps woken = false
sleeps (leaving s) = false
sleeps ended = false

abbrev pub has_ended : Bootstrap → Bool
has_ended creating = false
has_ended starting = false
has_ended sleeping = false
has_ended woken = false
has_ended (leaving s) = false
has_ended ended = true

-- What the place of the caller says of the runtime and of the other thread.
unfoldable pub IsPlaced : Runtime → Bootstrap → Caller → Type 0
IsPlaced r b enters = (r.held ≡ true) × (r.shutdown_requested ≡ false)
IsPlaced r b waits = (r.held ≡ true) × (r.bootstrap_done ≡ false) × (r.shutdown_requested ≡ false)
IsPlaced r b wakes = (r.held ≡ true) × (r.shutdown_requested ≡ false)
IsPlaced r b fails =
    (r.held ≡ true) × (r.bootstrap_done ≡ true) × (is_ok r.bootstrap_status ≡ false)
IsPlaced r b ready = (r.held ≡ true) × (r.bootstrap_done ≡ true)
IsPlaced r b joins =
    (r.held ≡ true) × (r.bootstrap_done ≡ true) × (r.shutdown_requested ≡ true) × (sleeps b ≡ false)
IsPlaced r b stopped =
    (r.held ≡ true)
    × (r.bootstrap_done ≡ true)
    × (has_ended b ≡ true)
    × (r.shutdown_complete ≡ true)
IsPlaced r b left_behind = r.held ≡ true
IsPlaced r b gone = (has_ended b ≡ true) × (r.held ≡ false)

-- The bootstrap thread moves on without telling a status.
pub moves-IsPlaced :
    (r p : Runtime) (b d : Bootstrap) (c : Caller)
    → IsPlaced r b c
    → p.held ≡ r.held
    → p.shutdown_requested ≡ r.shutdown_requested
    → p.bootstrap_done ≡ r.bootstrap_done
    → p.bootstrap_status ≡ r.bootstrap_status
    → has_ended b ≡ false
    → (sleeps d ≡ false) ⊎ (r.shutdown_requested ≡ false)
    → IsPlaced p d c
unfolding IsPlaced
moves-IsPlaced r p b d enters place held requested done status runs b_ok = ground arith
moves-IsPlaced r p b d waits place held requested done status runs b_ok = ground arith
moves-IsPlaced r p b d wakes place held requested done status runs b_ok = ground arith
moves-IsPlaced r p b d fails place held requested done status runs b_ok = ground arith
moves-IsPlaced r p b d ready place held requested done status runs b_ok = ground arith
moves-IsPlaced r p b d joins place held requested done status runs b_ok = ground arith
moves-IsPlaced r p b d stopped place held requested done status runs b_ok = ground arith
moves-IsPlaced r p b d left_behind place held requested done status runs b_ok = ground arith
moves-IsPlaced r p b d gone place held requested done status runs b_ok = ground arith

-- It tells its status, and wakes the caller.
pub publishes-IsPlaced :
    (r p : Runtime) (b d : Bootstrap) (c : Caller)
    → IsPlaced r b c
    → p.held ≡ r.held
    → p.shutdown_requested ≡ r.shutdown_requested
    → r.bootstrap_done ≡ false
    → has_ended b ≡ false
    → IsPlaced p d (wake_caller c)
unfolding IsPlaced
publishes-IsPlaced r p b d enters place held requested not_done runs = ground arith
publishes-IsPlaced r p b d waits place held requested not_done runs = ground arith
publishes-IsPlaced r p b d wakes place held requested not_done runs = ground arith
publishes-IsPlaced r p b d fails place held requested not_done runs = ground arith
publishes-IsPlaced r p b d ready place held requested not_done runs = ground arith
publishes-IsPlaced r p b d joins place held requested not_done runs = ground arith
publishes-IsPlaced r p b d stopped place held requested not_done runs = ground arith
publishes-IsPlaced r p b d left_behind place held requested not_done runs = ground arith
publishes-IsPlaced r p b d gone place held requested not_done runs = ground arith

-- The caller looks at the status in `init`.
pub init_wait-IsPlaced :
    (r : Runtime) (b : Bootstrap)
    → r.held ≡ true
    → r.shutdown_requested ≡ false
    → IsPlaced r b (init_wait r)
unfolding IsPlaced init_wait
init_wait-IsPlaced r b h k = init_on r.bootstrap_done (is_ok r.bootstrap_status) refl refl
  where
    init_on :
        (d s : Bool)
        → r.bootstrap_done ≡ d
        → is_ok r.bootstrap_status ≡ s
        → IsPlaced r b (if not d then waits else if s then ready else fails)
    init_on true true e f = (h, e)
    init_on true false e f = (h, e, f)
    init_on false s e f = (h, e, k)

-- In its loop the bootstrap thread is behind its status, sleeps only while no shutdown is asked for,
-- and only after a start that went well.
pub shutdown_wait-cases :
    (r : Runtime) (s : Status)
    → (is_before (shutdown_wait r s) ≡ false)
      × ((in_loop (shutdown_wait r s) ≡ false) ⊎ (is_ok s ≡ true))
      × ((sleeps (shutdown_wait r s) ≡ false) ⊎ (r.shutdown_requested ≡ false))
unfolding shutdown_wait
shutdown_wait-cases r s = ground arith

pub leave_keeps :
    (sys : System) (stop destroyed : Status) (r : Runtime) (s : Status)
    → let p = leave sys stop destroyed r s in
      (p.held ≡ r.held)
      × (p.shutdown_requested ≡ r.shutdown_requested)
      × (p.bootstrap_done ≡ r.bootstrap_done)
      × (p.bootstrap_status ≡ r.bootstrap_status)
unfolding leave
leave_keeps sys stop destroyed r s =
    if_both
      (λ (p : Runtime).
        (p.held ≡ r.held)
        × (p.shutdown_requested ≡ r.shutdown_requested)
        × (p.bootstrap_done ≡ r.bootstrap_done)
        × (p.bootstrap_status ≡ r.bootstrap_status))
      (is_ok s) (refl, refl, refl, refl) (refl, refl, refl, refl)

pub woken-cases :
    (b : Bootstrap)
    → (is_before (wake_bootstrap b) ≡ is_before b)
      × (in_loop (wake_bootstrap b) ≡ in_loop b)
      × (sleeps (wake_bootstrap b) ≡ false)
woken-cases creating = (refl, refl, refl)
woken-cases starting = (refl, refl, refl)
woken-cases sleeping = (refl, refl, refl)
woken-cases woken = (refl, refl, refl)
woken-cases (leaving s) = (refl, refl, refl)
woken-cases ended = (refl, refl, refl)
