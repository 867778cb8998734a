-- ===== src/Jni/Calls/Balance.antt =====
-- The rules of JNI that the calls keep: they give back every local reference that they have made, and
-- they call nothing while an exception is pending.
use ckarta.Prelude.{
  ℕ, ◌≡◌, refl, sym, Bool, true, false, inl, inr, List, ◌∷◌, Option, none, some, ◌==◌,
  if◌then◌else◌, arith, Bool-cases,
}
use mathlib.Core.Path.{subst}
use ckarta.Status.{Status, minus_one, ok}
use ckarta.Error.{ℤ}
use ckarta.Request.{Descriptor}
use ckarta.Jni.Bridge.{is_positive}
use ckarta.Jni.Env.{Env, Jvm, IsJvm, invoke, delete_ref, succeeded, nothing}
use ckarta.Jni.Calls.{
  claim_of, delete_all, dispatch_call, with_body, with_metadata, call_dispatch_async, call_start,
  call_stop, call_method, call_void, register_natives,
}
use ckarta.Jni.Calls.Quiet.{
  IsBalanced, push_ref, delete_ref-push_ref, delete_all-live, IsQuiet, stopped, given-IsBalanced,
  succeeded-IsBalanced, nothing-Cleans, last_call-IsBalanced,
}

call_void-IsBalanced :
    (jvm : Jvm) (class : ℕ) (live : List ℕ) (before e : Env)
    → IsQuiet (class ∷ live) before e
    → IsBalanced live before (call_void jvm class e)
unfolding call_void
call_void-IsBalanced jvm class live before e quiet =
    last_call-IsBalanced jvm (class ∷ live) live before e (delete_ref (some class)) quiet
      (delete_ref-push_ref (some class) live)

call_method-IsBalanced :
    (jvm : Jvm) (class : ℕ) (live : List ℕ) (before e : Env)
    → IsQuiet (class ∷ live) before e
    → IsBalanced live before (call_method jvm class e)
unfolding call_method
call_method-IsBalanced jvm class live before e quiet =
    succeeded-IsBalanced jvm (class ∷ live) live before e (delete_ref (some class))
      (call_void jvm class) quiet (delete_ref-push_ref (some class) live)
      (call_void-IsBalanced jvm class live before)

register_natives-IsBalanced :
    (jvm : Jvm) (class : ℕ) (live : List ℕ) (before e : Env) (next : Env → Env × Status)
    → IsJvm jvm
    → IsQuiet (class ∷ live) before e
    → ((e1 : Env) → IsQuiet (class ∷ live) before e1 → IsBalanced live before (next e1))
    → IsBalanced live before (register_natives jvm class next e)
unfolding register_natives invoke
register_natives-IsBalanced jvm class live before e next law quiet goes =
    elim (Bool-cases (jvm e.calls).done) [
      | inl h ↦
          let silent : (jvm e.calls).throws ≡ false = ground (arith, law e.calls) in
          rw h (
            goes (invoke jvm e).0
              (record { holds = quiet.holds; kept = ground arith; none_pending = ground arith }))
      | inr h ↦ rw h (
          stopped (class ∷ live) live before (invoke jvm e).0 (delete_ref (some class))
            (delete_ref-push_ref (some class) live) quiet.holds (ground arith))
    ]

start_of : (e : Env) → e.pending ≡ false → IsQuiet e.live e e
start_of e h = record { holds = refl; kept = refl; none_pending = h }

pub call_start-IsBalanced :
    (jvm : Jvm) (handle : ℤ) (e : Env)
    → IsJvm jvm
    → e.pending ≡ false
    → IsBalanced e.live e (call_start jvm handle e)
unfolding call_start
call_start-IsBalanced jvm handle e law h = elim (Bool-cases (is_positive handle)) [
  | inl p ↦ rw p (
      given-IsBalanced jvm e.live e.live e e nothing
        (λ e1 class. register_natives jvm class (call_method jvm class) e1) law (start_of e h)
        (nothing-Cleans e.live)
        (λ e1 class quiet.
          register_natives-IsBalanced jvm class e.live e e1 (call_method jvm class) law quiet
            (call_method-IsBalanced jvm class e.live e)))
  | inr p ↦ rw p (record { gives_back = refl; keeps_rules = refl; answers = inr refl })
]

pub call_stop-IsBalanced :
    (jvm : Jvm) (e : Env) → IsJvm jvm → e.pending ≡ false → IsBalanced e.live e (call_stop jvm e)
unfolding call_stop
call_stop-IsBalanced jvm e law h =
    given-IsBalanced jvm e.live e.live e e nothing (λ e1 class. call_method jvm class e1) law
      (start_of e h) (nothing-Cleans e.live)
      (λ e1 class quiet. call_method-IsBalanced jvm class e.live e e1 quiet)

if-IsBalanced :
    (b : Bool) (live : List ℕ) (before : Env) (x y : Env × Status)
    → (b ≡ true → IsBalanced live before x)
    → (b ≡ false → IsBalanced live before y)
    → IsBalanced live before (if b then x else y)
if-IsBalanced true live before x y h k = h refl
if-IsBalanced false live before x y h k = k refl

dispatch_call-IsBalanced :
    (jvm : Jvm) (d : Descriptor) (class : ℕ) (metadata body : Option ℕ) (live : List ℕ)
    (before e : Env)
    → IsQuiet (push_ref body (push_ref metadata (class ∷ live))) before e
    → IsBalanced live before (dispatch_call jvm d class metadata body e)
unfolding dispatch_call invoke
dispatch_call-IsBalanced jvm d class metadata body live before e quiet =
    let e1 : Env = (invoke jvm e).0 in
    let e2 : Env = record e1 { dispatched = claim_of d ∷ e1.dispatched } in
    let clean = delete_all-live class metadata body live in
    let kept : e1.misused ≡ before.misused = ground arith in
    if-IsBalanced e1.pending live before (delete_all class metadata body e1, minus_one)
      (delete_all class metadata body e2, ok)
      (λ h.
        stopped (push_ref body (push_ref metadata (class ∷ live))) live before e1
          (delete_all class metadata body) clean quiet.holds kept)
      (λ h.
        subst (λ x. IsBalanced live before (x, ok)) (sym (clean e2 quiet.holds))
          (record { gives_back = refl; keeps_rules = kept; answers = inl (refl, h) }))

with_body-IsBalanced :
    (jvm : Jvm) (d : Descriptor) (class : ℕ) (metadata : Option ℕ) (live : List ℕ) (before e : Env)
    → IsJvm jvm
    → IsQuiet (push_ref metadata (class ∷ live)) before e
    → IsBalanced live before (with_body jvm d class metadata e)
unfolding with_body
with_body-IsBalanced jvm d class metadata live before e law quiet =
    elim (Bool-cases (d.body_length == 0)) [
      | inl h ↦ rw h (dispatch_call-IsBalanced jvm d class metadata none live before e quiet)
      | inr h ↦ rw h (
          given-IsBalanced jvm (push_ref metadata (class ∷ live)) live before e
            (delete_all class metadata none)
            (λ e1 body. dispatch_call jvm d class metadata (some body) e1) law quiet
            (delete_all-live class metadata none live)
            (λ e1 body q.
              dispatch_call-IsBalanced jvm d class metadata (some body) live before e1 q))
    ]

with_metadata-IsBalanced :
    (jvm : Jvm) (d : Descriptor) (class : ℕ) (live : List ℕ) (before e : Env)
    → IsJvm jvm
    → IsQuiet (class ∷ live) before e
    → IsBalanced live before (with_metadata jvm d class e)
unfolding with_metadata
with_metadata-IsBalanced jvm d class live before e law quiet =
    elim (Bool-cases (d.metadata_length == 0)) [
      | inl h ↦ rw h (with_body-IsBalanced jvm d class none live before e law quiet)
      | inr h ↦ rw h (
          given-IsBalanced jvm (class ∷ live) live before e (delete_ref (some class))
            (λ e1 metadata. with_body jvm d class (some metadata) e1) law quiet
            (delete_ref-push_ref (some class) live)
            (λ e1 metadata q.
              with_body-IsBalanced jvm d class (some metadata) live before e1 law q))
    ]

pub call_dispatch_async-IsBalanced :
    (jvm : Jvm) (d : Descriptor) (e : Env)
    → IsJvm jvm
    → e.pending ≡ false
    → IsBalanced e.live e (call_dispatch_async jvm d e)
unfolding call_dispatch_async
call_dispatch_async-IsBalanced jvm d e law h =
    given-IsBalanced jvm e.live e.live e e nothing
      (λ e1 class. succeeded (invoke jvm e1) (delete_ref (some class)) (with_metadata jvm d class))
      law (start_of e h) (nothing-Cleans e.live)
      (λ e1 class q.
        succeeded-IsBalanced jvm (class ∷ e.live) e.live e e1 (delete_ref (some class))
          (with_metadata jvm d class) q (delete_ref-push_ref (some class) e.live)
          (λ e2 p. with_metadata-IsBalanced jvm d class e.live e e2 law p))

-- The three calls that the C code makes of the Java runtime, started while no exception is pending,
-- give back every local reference that they make, on every way out, and call nothing while an
-- exception is pending; they answer 0, with no exception pending, or -1. The VM is one that keeps the
-- word of JNI: a call that throws gives no reference and has not done what was asked.
pub calls-AreBalanced :
    (jvm : Jvm) (handle : ℤ) (d : Descriptor) (e : Env)
    → IsJvm jvm
    → e.pending ≡ false
    → IsBalanced e.live e (call_start jvm handle e)
      × IsBalanced e.live e (call_dispatch_async jvm d e)
      × IsBalanced e.live e (call_stop jvm e)
calls-AreBalanced jvm handle d e law h = (
  call_start-IsBalanced jvm handle e law h,
  call_dispatch_async-IsBalanced jvm d e law h,
  call_stop-IsBalanced jvm e law h,
)
