-- ===== src/Jni/Poll.antt =====
-- ck_runtime_poll_completion of c/jni/ck_jni_runtime.c: one record of the queue, and the request that
-- it settles.
pub mod Published
pub mod Settled
use ckarta.Prelude.{
  ℕ, zero, suc, Bool, true, false, not, ◌&&◌, List, [], ◌∷◌, Option, none, some, ◌==◌,
  if◌then◌else◌,
}
use ckarta.Status.{Status, minus_one, minus_two, minus_three, code, ok}
use ckarta.Error.{ℤ, pos, negsuc, Error, set}
use ckarta.Request.{Request, finish, fail}
use ckarta.Completion.Queue.{Completion, Queue, System, is_ok, pop}

unfoldable pub matches : Completion → Request → Bool
matches c r =
    c.request_id == r.descriptor.request_id
    && c.owner_token == r.descriptor.owner_token
    && c.lifetime_token == r.descriptor.lifetime_token
    && c.cycle_id == 1

-- Category, code and HTTP status for a status that is not 0: -2 is a lack of resources, -1 an
-- exception of the application, and any other an error inside.
unfoldable pub failure_of : ℤ → ℕ × ℕ × ℤ
failure_of (negsuc zero) = (7, 7, pos 500)
failure_of (negsuc (suc zero)) = (3, 3, pos 503)
failure_of (negsuc (suc (suc n))) = (9, 9, pos 500)
failure_of (pos n) = (9, 9, pos 500)

abbrev pub is_zero : ℤ → Bool
is_zero (pos n) = n == 0
is_zero (negsuc n) = false

-- The result 0 of `finish` or `fail` becomes `won`, and 1 becomes 2.
abbrev pub outcome : Status → Status → Status
outcome won (code n) = if n == 0 then won else if n == 1 then code 2 else minus_one
outcome won minus_one = minus_one
outcome won minus_two = minus_one
outcome won minus_three = minus_one

-- CK_ERROR_FLAG_CLIENT_VISIBLE is 1, the phase is 2.
unfoldable pub error_for : ℤ → Request → Error × Status
unfolding failure_of
error_for status r =
    let (category, error_code, http_status) = failure_of status in
    set ckarta.Error.init category error_code http_status 1 2 r.descriptor.request_id

abbrev fail_with : Request → Error × Status → Request × Status
fail_with r (e, s) =
    if not (is_ok s) then (r, minus_one) else ((fail r e).0, outcome minus_two (fail r e).1)

unfoldable pub settle_one : Completion → Request → Request × Status
unfolding error_for
settle_one c r =
    if is_zero c.status
    then ((finish r).0, outcome (code 1) (finish r).1)
    else fail_with r (error_for c.status r)

-- The first request that matches is settled; -3 if there is none.
unfoldable pub settle : Completion → List Request → List Request × Status
unfolding matches settle_one
settle c [] = ([], minus_three)
settle c (r ∷ requests) =
    let rest = settle c requests in
    if matches c r
    then ((settle_one c r).0 ∷ requests, (settle_one c r).1)
    else (r ∷ rest.0, rest.1)

-- The record that `pop` has stored; where it has stored none the variable has not been written.
abbrev pub stored : Completion → Option Completion → Completion
stored unwritten none = unwritten
stored unwritten (some c) = c

abbrev pub after_pop :
    Completion → List Request → Queue × Status × Option Completion → Queue × List Request × Status
after_pop unwritten requests (q, code n, got) =
    if n == 0
    then (q, requests, ok)
    else (q, (settle (stored unwritten got) requests).0, (settle (stored unwritten got) requests).1)
after_pop unwritten requests (q, minus_one, got) = (q, requests, minus_one)
after_pop unwritten requests (q, minus_two, got) = (q, requests, minus_two)
after_pop unwritten requests (q, minus_three, got) = (q, requests, minus_three)

-- `ready` tells that the queue of the runtime is set up; `unwritten` is what the stack held where
-- the record goes.
unfoldable pub poll_completion :
    System → Bool → Completion → Queue → List Request → Queue × List Request × Status
unfolding settle
poll_completion sys ready unwritten q [] = (q, [], minus_one)
poll_completion sys ready unwritten q (r ∷ requests) =
    if not ready
    then (q, r ∷ requests, minus_one)
    else after_pop unwritten (r ∷ requests) (pop sys q)
