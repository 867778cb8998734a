-- ===== src/Jni/Calls/Quiet.antt =====
-- The references that are held between two calls, and how the two ways of going on keep them.
use ckarta.Prelude.{
  ℕ, ◌≡◌, refl, ap, ◌∙◌, false, not, ◌||◌, ◌⊎◌, inl, inr, List, ◌∷◌, Option, none, some, arith,
  Bool-cases,
}
use ckarta.Status.{Status, minus_one, ok}
use ckarta.Descriptors.{release, release_newest}
use ckarta.Jni.Env.{
  Env, Jvm, IsJvm, invoke, new_ref, delete_ref, given, succeeded, nothing, add_ref,
}
use ckarta.Jni.Calls.{delete_all, check_java_exception}

-- With the references `live` left, no call made under an exception that was not pending before, and
-- an answer that tells whether the calls were made to their end.
pub record IsBalanced (live : List ℕ) (before : Env) (r : Env × Status) : Type 0 where
  pub gives_back : r.0.live ≡ live
  pub keeps_rules : r.0.misused ≡ before.misused
  pub answers : ((r.1 ≡ ok) × (r.0.pending ≡ false)) ⊎ (r.1 ≡ minus_one)

-- The references of a buffer that may not have been made.
abbrev pub push_ref : Option ℕ → List ℕ → List ℕ
push_ref none live = live
push_ref (some ref) live = ref ∷ live

pub delete_ref-push_ref :
    (ref : Option ℕ) (live : List ℕ) (e : Env)
    → e.live ≡ push_ref ref live
    → delete_ref ref e ≡ record e { live = live }
delete_ref-push_ref none live e h = ap (λ l. record e { live = l }) h
delete_ref-push_ref (some ref) live e h =
    ap (λ l. record e { live = l }) (ap (release ref) h ∙ release_newest ref live)

pub delete_all-live :
    (class : ℕ) (metadata body : Option ℕ) (live : List ℕ) (e : Env)
    → e.live ≡ push_ref body (push_ref metadata (class ∷ live))
    → delete_all class metadata body e ≡ record e { live = live }
delete_all-live class metadata body live e h =
    let with_metadata : Env = record e { live = push_ref metadata (class ∷ live) } in
    let with_class : Env = record e { live = class ∷ live } in
    ap (λ x. delete_ref (some class) (delete_ref metadata x))
      (delete_ref-push_ref body (push_ref metadata (class ∷ live)) e h)
    ∙ ap (delete_ref (some class)) (delete_ref-push_ref metadata (class ∷ live) with_metadata refl)
    ∙ delete_ref-push_ref (some class) live with_class refl

-- Between two calls: the references that are held, and that the rules are kept so far.
pub record IsQuiet (live : List ℕ) (before e : Env) : Type 0 where
  pub holds : e.live ≡ live
  pub kept : e.misused ≡ before.misused
  pub none_pending : e.pending ≡ false

-- What is done on the way out gives back the references that are held.
abbrev pub Cleans : List ℕ → List ℕ → (Env → Env) → Type 0
Cleans held live cleanup = (e : Env) → e.live ≡ held → cleanup e ≡ record e { live = live }

pub stopped :
    (held live : List ℕ) (before e : Env) (cleanup : Env → Env)
    → Cleans held live cleanup
    → e.live ≡ held
    → e.misused ≡ before.misused
    → IsBalanced live before (cleanup e, minus_one)
stopped held live before e cleanup clean h k =
    rw (clean e h) (record { gives_back = refl; keeps_rules = k; answers = inr refl })

pub add_ref-live :
    (ref : Option ℕ) (e : Env) (live : List ℕ)
    → e.live ≡ live
    → ((add_ref ref e).live ≡ push_ref ref live)
      × ((add_ref ref e).misused ≡ e.misused)
      × ((add_ref ref e).pending ≡ e.pending)
add_ref-live none e live h = (h, refl, refl)
add_ref-live (some ref) e live h = (ap (◌∷◌ ref) h, refl, refl)

pub given_on :
    (ref : Option ℕ) (held live : List ℕ) (before e1 : Env) (cleanup : Env → Env)
    (next : Env → ℕ → Env × Status)
    → e1.live ≡ push_ref ref held
    → e1.misused ≡ before.misused
    → (ref ≡ none) ⊎ (e1.pending ≡ false)
    → Cleans held live cleanup
    → ((e2 : Env) (new : ℕ) → IsQuiet (new ∷ held) before e2 → IsBalanced live before (next e2 new))
    → IsBalanced live before (given (e1, ref) cleanup next)
given_on none held live before e1 cleanup next h k p clean goes =
    stopped held live before e1 cleanup clean h k
given_on (some ref) held live before e1 cleanup next h k p clean goes =
    let none_pending : e1.pending ≡ false = ground (arith, p) in
    simp none_pending (goes e1 ref (record { holds = h; kept = k; none_pending = none_pending }))

pub given-IsBalanced :
    (jvm : Jvm) (held live : List ℕ) (before e : Env) (cleanup : Env → Env)
    (next : Env → ℕ → Env × Status)
    → IsJvm jvm
    → IsQuiet held before e
    → Cleans held live cleanup
    → ((e1 : Env) (ref : ℕ) → IsQuiet (ref ∷ held) before e1 → IsBalanced live before (next e1 ref))
    → IsBalanced live before (given (new_ref jvm e) cleanup next)
unfolding new_ref invoke
given-IsBalanced jvm held live before e cleanup next law quiet clean goes =
    let ref = (jvm e.calls).reference in
    let (h, k, p) = add_ref-live ref (invoke jvm e).0 held quiet.holds in
    given_on ref held live before (new_ref jvm e).0 cleanup next h (k ∙ ground arith)
      (elim (Bool-cases (jvm e.calls).throws) [
        | inl t ↦ inl (law e.calls t).0
        | inr t ↦ inr (p ∙ ground arith)
      ])
      clean goes

pub succeeded-IsBalanced :
    (jvm : Jvm) (held live : List ℕ) (before e : Env) (cleanup : Env → Env)
    (next : Env → Env × Status)
    → IsQuiet held before e
    → Cleans held live cleanup
    → ((e1 : Env) → IsQuiet held before e1 → IsBalanced live before (next e1))
    → IsBalanced live before (succeeded (invoke jvm e) cleanup next)
unfolding invoke
succeeded-IsBalanced jvm held live before e cleanup next quiet clean goes =
    elim (Bool-cases ((invoke jvm e).0.pending || not (jvm e.calls).done)) [
      | inl h ↦
          rw h (stopped held live before (invoke jvm e).0 cleanup clean quiet.holds (ground arith))
      | inr h ↦ rw h (
          goes (invoke jvm e).0
            (record { holds = quiet.holds; kept = ground arith; none_pending = ground arith }))
    ]

pub nothing-Cleans : (live : List ℕ) → Cleans live live nothing
nothing-Cleans live e h = ap (λ l. record e { live = l }) h

-- A void call that is the last one, on whatever is held.
pub last_call-IsBalanced :
    (jvm : Jvm) (held live : List ℕ) (before e : Env) (cleanup : Env → Env)
    → IsQuiet held before e
    → Cleans held live cleanup
    → IsBalanced live before (cleanup (invoke jvm e).0, check_java_exception (invoke jvm e).0)
unfolding invoke
last_call-IsBalanced jvm held live before e cleanup quiet clean =
    rw (clean (invoke jvm e).0 quiet.holds)
      (record { gives_back = refl; keeps_rules = ground arith; answers = ground arith })
