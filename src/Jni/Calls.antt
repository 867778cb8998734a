-- ===== src/Jni/Calls.antt =====
-- The calls of the Java side in c/jni/ck_jni_runtime.c, and the registration of
-- c/jni/ck_async_bridge.c.
pub mod Balance
pub mod Quiet
use ckarta.Prelude.{Bool, true, false, not, ◌||◌, ℕ, ◌∷◌, Option, none, some, ◌==◌, if◌then◌else◌}
use ckarta.Status.{Status, minus_one, ok}
use ckarta.Error.{ℤ}
use ckarta.Registry.{Claim}
use ckarta.Request.{Descriptor}
use ckarta.Jni.Bridge.{is_positive}
use ckarta.Jni.Env.{Env, Jvm, invoke, new_ref, delete_ref, given, succeeded, nothing}

abbrev pub check_java_exception : Env → Status
check_java_exception e = if not e.pending then ok else minus_one

-- The void call that ends `start` and `stop`, on the class.
unfoldable pub call_void : Jvm → ℕ → Env → Env × Status
unfolding invoke
call_void jvm class e =
    (delete_ref (some class) (invoke jvm e).0, check_java_exception (invoke jvm e).0)

-- The method is looked up, then called.
unfoldable pub call_method : Jvm → ℕ → Env → Env × Status
unfolding invoke call_void
call_method jvm class e = succeeded (invoke jvm e) (delete_ref (some class)) (call_void jvm class)

-- `RegisterNatives` does not throw where it gives JNI_OK, so that only its result is looked at.
unfoldable pub register_natives : Jvm → ℕ → (Env → Env × Status) → Env → Env × Status
unfolding invoke
register_natives jvm class next e =
    let (e1, done) = invoke jvm e in
    if not done then (delete_ref (some class) e1, minus_one) else next e1

unfoldable pub call_start : Jvm → ℤ → Env → Env × Status
unfolding new_ref register_natives call_method
call_start jvm queue_handle e =
    if not (is_positive queue_handle)
    then (e, minus_one)
    else given (new_ref jvm e) nothing
        (λ e1 class. register_natives jvm class (call_method jvm class) e1)

unfoldable pub call_stop : Jvm → Env → Env × Status
unfolding new_ref call_method
call_stop jvm e = given (new_ref jvm e) nothing (λ e1 class. call_method jvm class e1)

abbrev released : ℕ → Env → Env × Status
released class e = (delete_ref (some class) e, ok)

-- The registration of the bridge looks at the reference alone.
unfoldable pub bridge_register : Jvm → Env → Env × Status
unfolding new_ref register_natives
bridge_register jvm e = with_class (new_ref jvm e)
  where
    with_class : Env × Option ℕ → Env × Status
    with_class (e1, none) = (e1, minus_one)
    with_class (e1, some class) = register_natives jvm class (released class) e1

abbrev pub claim_of : Descriptor → Claim
claim_of d = record {
  request_id = d.request_id;
  owner_token = d.owner_token;
  lifetime_token = d.lifetime_token;
}

-- The three references go back, the newest first.
abbrev pub delete_all : ℕ → Option ℕ → Option ℕ → Env → Env
delete_all class metadata body e = delete_ref (some class) (delete_ref metadata (delete_ref body e))

unfoldable pub dispatch_call : Jvm → Descriptor → ℕ → Option ℕ → Option ℕ → Env → Env × Status
unfolding invoke
dispatch_call jvm d class metadata body e =
    let e1 = (invoke jvm e).0 in
    if e1.pending then (delete_all class metadata body e1, minus_one) else (
      delete_all class metadata body (record e1 { dispatched = claim_of d ∷ e1.dispatched }),
      ok,
    )

unfoldable pub with_body : Jvm → Descriptor → ℕ → Option ℕ → Env → Env × Status
unfolding new_ref dispatch_call
with_body jvm d class metadata e =
    if d.body_length == 0
    then dispatch_call jvm d class metadata none e
    else given (new_ref jvm e) (delete_all class metadata none)
        (λ e1 body. dispatch_call jvm d class metadata (some body) e1)

unfoldable pub with_metadata : Jvm → Descriptor → ℕ → Env → Env × Status
unfolding new_ref with_body
with_metadata jvm d class e =
    if d.metadata_length == 0
    then with_body jvm d class none e
    else given (new_ref jvm e) (delete_ref (some class))
        (λ e1 metadata. with_body jvm d class (some metadata) e1)

unfoldable pub call_dispatch_async : Jvm → Descriptor → Env → Env × Status
unfolding new_ref invoke with_metadata
call_dispatch_async jvm d e =
    given (new_ref jvm e) nothing
      (λ e1 class. succeeded (invoke jvm e1) (delete_ref (some class)) (with_metadata jvm d class))
