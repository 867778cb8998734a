-- ===== src/Jni/Worker.antt =====
-- The worker thread of c/jni/ck_jni_runtime.c, which begins each request and hands it to Java, and
-- the call that starts the thread and waits for its end.
pub mod Exception
pub mod Handed
use ckarta.Prelude.{ℕ, Bool, true, false, not, ◌&&◌, ◌||◌, List, [], ◌∷◌, if◌then◌else◌}
use ckarta.Status.{Status, minus_one, ok}
use ckarta.Error.{ℤ, pos, Error, set}
use ckarta.Request.{Request, begin, fail}
use ckarta.Completion.Queue.{is_ok}
use ckarta.Jni.Env.{Env, Jvm}
use ckarta.Jni.Calls.{call_dispatch_async}

-- The category, the code and the phase are JNI, JNI_FAILURE and 1; the flag is that the client may
-- see it.
abbrev pub jni_failure : Request → Error × Status
jni_failure r = set ckarta.Error.init 8 8 (pos 500) 1 1 r.descriptor.request_id

abbrev failed_by : Request → Error × Status → Request
failed_by r (e, s) = if not (is_ok s) then r else (fail r e).0

-- After the call: the request, and the result of the worker.
abbrev after_dispatch : Request → Status → Env × Status → Env × Request × Status
after_dispatch r result (e, s) =
    if is_ok s then (e, r, result) else (e, failed_by r (jni_failure r), minus_one)

unfoldable pub work_one : Jvm → Env → Request → Status → Env × Request × Status
work_one jvm e r result =
    let (begun, s) = begin r in
    if not (is_ok s)
    then (e, begun, minus_one)
    else after_dispatch begun result (call_dispatch_async jvm begun.descriptor e)

unfoldable pub work : Jvm → Env → List Request → Status → Env × List Request × Status
unfolding work_one
work jvm e [] result = (e, [], result)
work jvm e (r ∷ requests) result =
    let (e1, p, s) = work_one jvm e r result in
    let (e2, left, t) = work jvm e1 requests s in (e2, p ∷ left, t)

-- `attached` and `detached` are the answers of the VM; the environment is that of the new thread.
unfoldable pub worker_main :
    Jvm → Status → Status → Env → List Request → Env × List Request × Status
unfolding work
worker_main jvm attached detached e [] = (e, [], minus_one)
worker_main jvm attached detached e (r ∷ requests) =
    if not (is_ok attached)
    then (e, r ∷ requests, attached)
    else detach detached (work jvm e (r ∷ requests) ok)
  where
    detach : Status → Env × List Request × Status → Env × List Request × Status
    detach detached (e1, left, s) =
        (e1, left, if not (is_ok detached) && is_ok s then minus_one else s)

-- `runs` tells that the VM is there and no shutdown has been asked for. The worker's result is not
-- looked at.
unfoldable pub dispatch_async_smoke :
    Bool → Status → Bool → Jvm → Status → Status → Env → List Request → Env × List Request × Status
unfolding worker_main
dispatch_async_smoke runs created joined jvm attached detached e [] = (e, [], minus_one)
dispatch_async_smoke runs created joined jvm attached detached e (r ∷ requests) =
    let (e1, left, result) = worker_main jvm attached detached e (r ∷ requests) in
    if not runs
    then (e, r ∷ requests, minus_one)
    else if not (is_ok created)
    then (e, r ∷ requests, created)
    else (e1, left, if joined then ok else minus_one)
