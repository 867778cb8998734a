-- ===== src/Jni/Worker/Exception.antt =====
-- What an exception of one request does to the requests behind it: the worker never clears it.
use ckarta.Prelude.{
  ℕ, ◌≡◌, ◌||◌, ◌==◌, Bool, false, refl, ◌∙◌, sym, true, inl, inr, List, [], ◌∷◌, Option, none,
  some, if◌then◌else◌, arith,
}
use mathlib.Core.Path.{subst}
use ckarta.Status.{Status, minus_one}
use ckarta.Error.{Error, pos, set, status_valid}
use ckarta.Request.{Descriptor, Request, pending, failed}
use ckarta.Jni.Env.{Env, Jvm, invoke, new_ref, given, succeeded, nothing, add_ref, delete_ref}
use ckarta.Jni.Calls.{call_dispatch_async, with_metadata}
use ckarta.Jni.Worker.{jni_failure, work}
use ckarta.Jni.Worker.Handed.{work_one-begun, work_one-failed, pending-cases}

abbrev IsStuck : Env → Env × Status → Type 0
IsStuck e (e1, s) =
    (s ≡ minus_one) × (e1.pending ≡ true) × (e1.misused ≡ true) × (e1.dispatched ≡ e.dispatched)

given-IsStuck :
    (ref : Option ℕ) (before e : Env) (next : Env → ℕ → Env × Status)
    → e.pending ≡ true
    → e.misused ≡ true
    → e.dispatched ≡ before.dispatched
    → IsStuck before (given (add_ref ref e, ref) nothing next)
given-IsStuck none before e next h k d = (refl, h, k, d)
given-IsStuck (some ref) before e next h k d =
    let e1 : Env = add_ref (some ref) e in
    subst (λ b. IsStuck before (if b then (e1, minus_one) else next e1 ref)) (sym h) (refl, h, k, d)

call-IsStuck :
    (jvm : Jvm) (d : Descriptor) (e : Env)
    → e.pending ≡ true
    → IsStuck e (call_dispatch_async jvm d e)
unfolding call_dispatch_async new_ref invoke
call-IsStuck jvm d e h =
    given-IsStuck (jvm e.calls).reference e (invoke jvm e).0
      (λ e1 class. succeeded (invoke jvm e1) (delete_ref (some class)) (with_metadata jvm d class))
      (ground arith) (ground arith) refl

-- Each request that was pending has failed with an error of JNI, 500 and its own id, and the others
-- are as they were.
pub data Refused : List Request → List Request → Type 0 where
  all_done : Refused [] []
  fails :
      {r : Request} {requests left : List Request} (x : Error)
      → r.state ≡ pending
      → x.category ≡ 8
      → x.code ≡ 8
      → x.http_status ≡ pos 500
      → x.request_id ≡ r.descriptor.request_id
      → Refused requests left
      → Refused (r ∷ requests) (record r { error = x; state = failed } ∷ left)
  was_begun :
      {r : Request} {requests left : List Request}
      → (r.state ≡ pending → ⊥)
      → Refused requests left
      → Refused (r ∷ requests) (r ∷ left)

abbrev pub any_pending : List Request → Bool
any_pending [] = false
any_pending (r ∷ requests) = r.state == pending || any_pending requests

abbrev pub none_left : List Request → Bool
none_left [] = true
none_left (r ∷ requests) = false

failure-Refused :
    (r : Request) (requests left : List Request)
    → r.state ≡ pending
    → Refused requests left
    → Refused (r ∷ requests) (record r { error = (jni_failure r).0; state = failed } ∷ left)
unfolding set status_valid
failure-Refused r requests left h rest = fails (jni_failure r).0 h refl refl refl refl rest

-- What the worker does under an exception, from `e` and the result `s`.
pub record IsUseless (e : Env) (requests : List Request) (s : Status) (e1 : Env)
    (left : List Request) (t : Status) : Type 0 where
  pub still_pending : e1.pending ≡ true
  pub nothing_handed : e1.dispatched ≡ e.dispatched
  pub all_refused : Refused requests left
  pub misuse : e1.misused ≡ (e.misused || any_pending requests)
  pub result : t ≡ (if none_left requests then s else minus_one)

minus_one-if : (b : Bool) → (if b then minus_one else minus_one) ≡ minus_one
minus_one-if true = refl
minus_one-if false = refl

-- While an exception is pending the worker hands no request to Java: the exception stays, every
-- pending request ends failed with the error for JNI, every other one stays as it is, and the result
-- is -1 if there is any request. JNI is called under the exception, which it does not allow, exactly
-- if it was before or some request is pending.
pub work-pending :
    (jvm : Jvm) (e : Env) (requests : List Request) (s : Status)
    → e.pending ≡ true
    → let (e1, left, t) = work jvm e requests s in IsUseless e requests s e1 left t
unfolding work
work-pending jvm e [] s h = record {
  still_pending = h;
  nothing_handed = refl;
  all_refused = all_done;
  misuse = ground arith;
  result = refl;
}
work-pending jvm e (r ∷ requests) s h = elim (pending-cases r.state) [
  | inr k ↦
      let v = work-pending jvm e requests minus_one h in
      rw (work_one-begun jvm e r s k) (record {
        still_pending = v.still_pending;
        nothing_handed = v.nothing_handed;
        all_refused = was_begun k v.all_refused;
        misuse = ground (arith, v.misuse);
        result = v.result ∙ minus_one-if (none_left requests);
      })
  | inl k ↦
      let (answer, p, m, same) = call-IsStuck jvm r.descriptor e h in
      let e1 = (call_dispatch_async jvm r.descriptor e).0 in
      let v = work-pending jvm e1 requests minus_one p in
      rw (work_one-failed jvm e r s k answer) (record {
        still_pending = v.still_pending;
        nothing_handed = v.nothing_handed ∙ same;
        all_refused = failure-Refused r _ _ k v.all_refused;
        misuse = ground (arith, v.misuse, m);
        result = v.result ∙ minus_one-if (none_left requests);
      })
]
