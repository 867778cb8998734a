-- ===== src/Jni/Worker/Handed.antt =====
-- What the worker makes of its requests: each is handed to Java or failed, and the requests that Java
-- has got are those that run, in their order.
use ckarta.Prelude.{
  ℕ, ◌≡◌, refl, ap, ◌∙◌, Bool, not, ◌||◌, ◌⊎◌, inl, inr, List, [], ◌∷◌, Option, none, some, ◌==◌,
  arith, if_both,
}
use mathlib.Core.Path.{subst}
use ckarta.Status.{Status, minus_one, code, ok}
use ckarta.Error.{set, status_valid}
use ckarta.Request.{
  Descriptor, Request, begin, begin_attempt, fail, fail_attempt, pending, running, failed,
}
use ckarta.Registry.{Claim}
use ckarta.Jni.Env.{Env, Jvm, invoke, new_ref, delete_ref, given, succeeded, nothing, add_ref}
use ckarta.Jni.Calls.{
  claim_of, call_dispatch_async, with_metadata, with_body, dispatch_call, delete_all,
}
use ckarta.Jni.Worker.{jni_failure, work_one, work}

-- The requests that Java has, the last first, and the worker's result, before; the requests before
-- and after; and the same two after.
pub data Handed
    : List Claim → Status → List Request → List Request → List Claim → Status → Type 0 where
  all_done : {taken : List Claim} {s : Status} → Handed taken s [] [] taken s
  hands :
      {taken now : List Claim} {s t : Status} {r : Request} {requests left : List Request}
      → r.state ≡ pending
      → Handed (claim_of r.descriptor ∷ taken) s requests left now t
      → Handed taken s (r ∷ requests) (record r { state = running } ∷ left) now t
  fails :
      {taken now : List Claim} {s t : Status} {r : Request} {requests left : List Request}
      → r.state ≡ pending
      → Handed taken minus_one requests left now t
      → Handed taken s
          (r ∷ requests)
          (record r { error = (jni_failure r).0; state = failed } ∷ left)
          now
          t
  was_begun :
      {taken now : List Claim} {s t : Status} {r : Request} {requests left : List Request}
      → (r.state ≡ pending → ⊥)
      → Handed taken minus_one requests left now t
      → Handed taken s (r ∷ requests) (r ∷ left) now t

-- A call that answers 0 has handed the request over, and any other answer is -1 and has not.
abbrev Dispatches : Claim → Env → Env × Status → Type 0
Dispatches k e (e1, s) =
    ((s ≡ ok) × (e1.dispatched ≡ k ∷ e.dispatched))
    ⊎ ((s ≡ minus_one) × (e1.dispatched ≡ e.dispatched))

delete_ref-dispatched : (ref : Option ℕ) (e : Env) → (delete_ref ref e).dispatched ≡ e.dispatched
delete_ref-dispatched none e = refl
delete_ref-dispatched (some ref) e = refl

add_ref-dispatched : (ref : Option ℕ) (e : Env) → (add_ref ref e).dispatched ≡ e.dispatched
add_ref-dispatched none e = refl
add_ref-dispatched (some ref) e = refl

-- Whatever is done on the way out leaves what Java has.
abbrev Leaves : (Env → Env) → Type 0
Leaves cleanup = (e : Env) → (cleanup e).dispatched ≡ e.dispatched

given-Dispatches :
    (k : Claim) (ref : Option ℕ) (before e : Env) (cleanup : Env → Env)
    (next : Env → ℕ → Env × Status)
    → e.dispatched ≡ before.dispatched
    → Leaves cleanup
    → ((e1 : Env) (new : ℕ) → e1.dispatched ≡ before.dispatched → Dispatches k before (next e1 new))
    → Dispatches k before (given (e, ref) cleanup next)
given-Dispatches k none before e cleanup next h clean goes = inr (refl, clean e ∙ h)
given-Dispatches k (some ref) before e cleanup next h clean goes =
    if_both (Dispatches k before) e.pending (inr (refl, clean e ∙ h)) (goes e ref h)

succeeded-Dispatches :
    (k : Claim) (done : Bool) (before e : Env) (cleanup : Env → Env) (next : Env → Env × Status)
    → e.dispatched ≡ before.dispatched
    → Leaves cleanup
    → ((e1 : Env) → e1.dispatched ≡ before.dispatched → Dispatches k before (next e1))
    → Dispatches k before (succeeded (e, done) cleanup next)
succeeded-Dispatches k done before e cleanup next h clean goes =
    if_both (Dispatches k before) (e.pending || not done) (inr (refl, clean e ∙ h)) (goes e h)

delete_all-Leaves : (class : ℕ) (metadata body : Option ℕ) → Leaves (delete_all class metadata body)
delete_all-Leaves class metadata body e =
    delete_ref-dispatched metadata (delete_ref body e) ∙ delete_ref-dispatched body e

dispatch_call-Dispatches :
    (jvm : Jvm) (d : Descriptor) (class : ℕ) (metadata body : Option ℕ) (before e : Env)
    → e.dispatched ≡ before.dispatched
    → Dispatches (claim_of d) before (dispatch_call jvm d class metadata body e)
unfolding dispatch_call invoke
dispatch_call-Dispatches jvm d class metadata body before e h =
    let e1 : Env = (invoke jvm e).0 in
    let e2 : Env = record e1 { dispatched = claim_of d ∷ e1.dispatched } in
    if_both (Dispatches (claim_of d) before) e1.pending
      (inr (refl, delete_all-Leaves class metadata body e1 ∙ h))
      (inl (refl, delete_all-Leaves class metadata body e2 ∙ ap (◌∷◌ (claim_of d)) h))

new_ref-Dispatches :
    (jvm : Jvm) (k : Claim) (before e : Env) (cleanup : Env → Env) (next : Env → ℕ → Env × Status)
    → e.dispatched ≡ before.dispatched
    → Leaves cleanup
    → ((e1 : Env) (new : ℕ) → e1.dispatched ≡ before.dispatched → Dispatches k before (next e1 new))
    → Dispatches k before (given (new_ref jvm e) cleanup next)
unfolding new_ref invoke
new_ref-Dispatches jvm k before e cleanup next h clean goes =
    let ref = (jvm e.calls).reference in
    given-Dispatches k ref before (new_ref jvm e).0 cleanup next
      (add_ref-dispatched ref (invoke jvm e).0 ∙ h) clean goes

with_body-Dispatches :
    (jvm : Jvm) (d : Descriptor) (class : ℕ) (metadata : Option ℕ) (before e : Env)
    → e.dispatched ≡ before.dispatched
    → Dispatches (claim_of d) before (with_body jvm d class metadata e)
unfolding with_body
with_body-Dispatches jvm d class metadata before e h =
    if_both (Dispatches (claim_of d) before) (d.body_length == 0)
      (dispatch_call-Dispatches jvm d class metadata none before e h)
      (new_ref-Dispatches jvm (claim_of d) before e (delete_all class metadata none)
        (λ e1 body. dispatch_call jvm d class metadata (some body) e1) h
        (delete_all-Leaves class metadata none)
        (λ e1 body. dispatch_call-Dispatches jvm d class metadata (some body) before e1))

with_metadata-Dispatches :
    (jvm : Jvm) (d : Descriptor) (class : ℕ) (before e : Env)
    → e.dispatched ≡ before.dispatched
    → Dispatches (claim_of d) before (with_metadata jvm d class e)
unfolding with_metadata
with_metadata-Dispatches jvm d class before e h =
    if_both (Dispatches (claim_of d) before) (d.metadata_length == 0)
      (with_body-Dispatches jvm d class none before e h)
      (new_ref-Dispatches jvm (claim_of d) before e (delete_ref (some class))
        (λ e1 metadata. with_body jvm d class (some metadata) e1) h
        (delete_ref-dispatched (some class))
        (λ e1 metadata. with_body-Dispatches jvm d class (some metadata) before e1))

call-Dispatches :
    (jvm : Jvm) (d : Descriptor) (e : Env) → Dispatches (claim_of d) e (call_dispatch_async jvm d e)
unfolding call_dispatch_async invoke
call-Dispatches jvm d e =
    new_ref-Dispatches jvm (claim_of d) e e nothing
      (λ e1 class. succeeded (invoke jvm e1) (delete_ref (some class)) (with_metadata jvm d class))
      refl (λ e1. refl)
      (λ e1 class h.
        succeeded-Dispatches (claim_of d) (jvm e1.calls).done e (invoke jvm e1).0
          (delete_ref (some class)) (with_metadata jvm d class) h
          (delete_ref-dispatched (some class)) (λ e2. with_metadata-Dispatches jvm d class e e2))

begin-pending : (r : Request) → r.state ≡ pending → begin r ≡ (record r { state = running }, ok)
unfolding begin begin_attempt
begin-pending r h = ground arith

begin-other : (r : Request) → (r.state ≡ pending → ⊥) → begin r ≡ (r, code 1)
unfolding begin begin_attempt
begin-other r h = ground arith

-- A running request that cannot be handed over fails.
fail-running :
    (r : Request)
    → r.state ≡ running
    → (fail r (jni_failure r).0).0 ≡ record r { error = (jni_failure r).0; state = failed }
unfolding fail fail_attempt set status_valid
fail-running r h = ground arith

failure_made : (r : Request) → (jni_failure r).1 ≡ ok
unfolding set status_valid
failure_made r = refl

-- What the worker does with one request, in the three cases.
pub work_one-begun :
    (jvm : Jvm) (e : Env) (r : Request) (s : Status)
    → (r.state ≡ pending → ⊥)
    → work_one jvm e r s ≡ (e, r, minus_one)
unfolding work_one
work_one-begun jvm e r s h = rw (begin-other r h) refl

work_one-handed :
    (jvm : Jvm) (e : Env) (r : Request) (s : Status)
    → r.state ≡ pending
    → (call_dispatch_async jvm r.descriptor e).1 ≡ ok
    → work_one jvm e r s
      ≡ ((call_dispatch_async jvm r.descriptor e).0, record r { state = running }, s)
unfolding work_one
work_one-handed jvm e r s h k = rw (begin-pending r h, k) refl

pub work_one-failed :
    (jvm : Jvm) (e : Env) (r : Request) (s : Status)
    → r.state ≡ pending
    → (call_dispatch_async jvm r.descriptor e).1 ≡ minus_one
    → work_one jvm e r s ≡ (
      (call_dispatch_async jvm r.descriptor e).0,
      record r { error = (jni_failure r).0; state = failed },
      minus_one,
    )
unfolding work_one
work_one-failed jvm e r s h k =
    let p : Request = record r { state = running } in
    rw (begin-pending r h, k, failure_made p, fail-running p refl) refl

pub pending-cases : (n : ℕ) → (n ≡ pending) ⊎ (n ≡ pending → ⊥)
pending-cases n = ground arith

-- Each request that was pending either runs, and Java has been given it, or has failed with the error
-- for JNI, and Java has not; one that was not pending stays as it is. Java has been given the
-- requests that run, in their order and each once, and the worker's result stays as it was only if
-- every request has been handed over.
pub work-Handed :
    (jvm : Jvm) (e : Env) (requests : List Request) (s : Status)
    → let (e1, left, t) = work jvm e requests s in
      Handed e.dispatched s requests left e1.dispatched t
unfolding work
work-Handed jvm e [] s = all_done
work-Handed jvm e (r ∷ requests) s = elim (pending-cases r.state) [
  | inr h ↦ rw (work_one-begun jvm e r s h) (was_begun h (work-Handed jvm e requests minus_one))
  | inl h ↦
      let e1 = (call_dispatch_async jvm r.descriptor e).0 in
      elim (call-Dispatches jvm r.descriptor e) [
        | inl (k, more) ↦ rw (work_one-handed jvm e r s h k) (
            hands h (
              subst
                (λ x.
                  Handed x s requests (work jvm e1 requests s).1
                    (work jvm e1 requests s).0.dispatched (work jvm e1 requests s).2)
                more (work-Handed jvm e1 requests s)))
        | inr (k, same) ↦ rw (work_one-failed jvm e r s h k) (
            fails h (
              subst
                (λ x.
                  Handed x minus_one requests (work jvm e1 requests minus_one).1
                    (work jvm e1 requests minus_one).0.dispatched
                    (work jvm e1 requests minus_one).2)
                same (work-Handed jvm e1 requests minus_one)))
      ]
]
