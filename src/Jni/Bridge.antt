-- ===== src/Jni/Bridge.antt =====
-- The functions that Java calls: ck_native_publish_completion of c/jni/ck_jni_runtime.c, and those
-- of c/jni/ck_async_bridge.c. A `jlong` is an integer; the object that a handle is the address of is
-- given with it.
pub mod Once
use ckarta.Prelude.{ℕ, Bool, true, false, not, ◌||◌, List, Option, some, ltb, ◌==◌, if◌then◌else◌}
use ckarta.Status.{Status, minus_one}
use ckarta.Error.{ℤ, pos, negsuc}
use ckarta.Completion.Queue.{Completion, Queue, System, WakeUp, push_wait}
use ckarta.Registry.{Registry, Claim}
use ckarta.Registry as Registry
use ckarta.Registry.Operations.{start_async, terminate}

abbrev pub is_positive : ℤ → Bool
is_positive (pos n) = not (n == 0)
is_positive (negsuc n) = false

abbrev pub is_negative : ℤ → Bool
is_negative (pos n) = false
is_negative (negsuc n) = true

-- The cast of a value that is not negative to `uint64_t`.
abbrev pub natural : ℤ → ℕ
natural (pos n) = n
natural (negsuc n) = 0

-- The values of a call, as Java gives them.
pub record Values : Type 0 where
  pub request_id : ℤ
  pub owner_token : ℤ
  pub lifetime_token : ℤ
  pub cycle_id : ℤ

unfoldable pub are_valid : Values → Bool
are_valid v = not (
    not (is_positive v.request_id)
    || is_negative v.owner_token
    || is_negative v.lifetime_token
    || not (is_positive v.cycle_id))

abbrev pub claim_of : Values → Claim
claim_of v = record {
  request_id = natural v.request_id;
  owner_token = natural v.owner_token;
  lifetime_token = natural v.lifetime_token;
}

abbrev pub completion_of : Values → ℤ → ℤ → Completion
completion_of v result status = record {
  request_id = natural v.request_id;
  owner_token = natural v.owner_token;
  lifetime_token = natural v.lifetime_token;
  cycle_id = natural v.cycle_id;
  result = result;
  status = status;
}

-- On the queue of the handle, with the wake-ups of its waits.
unfoldable pub publish_completion :
    System → Queue → List WakeUp → ℤ → Values → ℤ → ℤ → Option (Queue × Status)
unfolding are_valid
publish_completion sys q wakes queue_handle v result status =
    if not (is_positive queue_handle) || not (are_valid v)
    then some (q, minus_one)
    else push_wait sys q (completion_of v result status) wakes

abbrev pub registry_from_handle : ℤ → Bool
registry_from_handle handle = is_positive handle

-- On the registry of the handle.
unfoldable pub start_async_cycle : Registry.System → Registry → ℤ → ℤ → Values → Registry × Status
unfolding are_valid
start_async_cycle sys r registry_handle handle v =
    if not (registry_from_handle registry_handle) || not (is_positive handle) || not (are_valid v)
    then (r, minus_one)
    else start_async sys r (natural handle) (claim_of v) (natural v.cycle_id)

-- The events run from COMPLETE, 0, to SHUTDOWN, 4.
abbrev pub event_valid : ℤ → Bool
event_valid (pos n) = not (ltb 4 n)
event_valid (negsuc n) = false

unfoldable pub try_terminal : Registry.System → Registry → ℤ → ℤ → Values → ℤ → Registry × Status
unfolding are_valid
try_terminal sys r registry_handle handle v event =
    if not (registry_from_handle registry_handle)
      || not (is_positive handle)
      || not (are_valid v)
      || not (event_valid event)
    then (r, minus_one)
    else terminate sys r (natural handle) (claim_of v) (natural v.cycle_id) (natural event)
