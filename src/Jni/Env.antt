-- ===== src/Jni/Env.antt =====
-- A thread of the Java VM as JNI lets the C code see it: its local references, the exception that is
-- pending, and the calls that are made of it. What the VM answers is a parameter.
use ckarta.Prelude.{
  ℕ, ◌+◌, ◌≡◌, Bool, true, false, not, ◌||◌, List, ◌∷◌, Option, none, some, if◌then◌else◌,
}
use ckarta.Status.{Status, minus_one}
use ckarta.Registry.{Claim}
use ckarta.Descriptors.{release}

-- `misused` tells that a call was made while an exception was pending, for which JNI defines nothing
-- but to look at the exception and to give references back; `dispatched` are the requests that Java
-- has taken, the last first.
pub record Env : Type 0 where
  pub calls : ℕ
  pub live : List ℕ
  pub pending : Bool
  pub misused : Bool
  pub dispatched : List Claim

-- The answer to a call: a new local reference, whether it throws, and whether it does what was asked
-- (the method is there, the functions are registered).
pub record Reply : Type 0 where
  pub reference : Option ℕ
  pub throws : Bool
  pub done : Bool

-- The VM: its answer to each call, by the call's number.
abbrev pub Jvm : Type 0
Jvm = ℕ → Reply

-- What JNI promises: a call that throws gives no reference, and has not done what was asked.
abbrev pub IsJvm : Jvm → Type 0
IsJvm jvm = (n : ℕ) → (jvm n).throws ≡ true → ((jvm n).reference ≡ none) × ((jvm n).done ≡ false)

unfoldable pub invoke : Jvm → Env → Env × Bool
invoke jvm e = (
  record e {
    calls = e.calls + 1;
    pending = e.pending || (jvm e.calls).throws;
    misused = e.misused || e.pending;
  },
  (jvm e.calls).done,
)

abbrev pub add_ref : Option ℕ → Env → Env
add_ref none e = e
add_ref (some ref) e = record e { live = ref ∷ e.live }

-- `FindClass` and `NewDirectByteBuffer`.
unfoldable pub new_ref : Jvm → Env → Env × Option ℕ
unfolding invoke
new_ref jvm e = (add_ref (jvm e.calls).reference (invoke jvm e).0, (jvm e.calls).reference)

-- `DeleteLocalRef`, under `!= NULL`.
abbrev pub delete_ref : Option ℕ → Env → Env
delete_ref none e = e
delete_ref (some ref) e = record e { live = release ref e.live }

-- The code goes on with a reference that it has got while nothing is pending.
abbrev pub given : Env × Option ℕ → (Env → Env) → (Env → ℕ → Env × Status) → Env × Status
given (e, none) cleanup next = (cleanup e, minus_one)
given (e, some ref) cleanup next = if e.pending then (cleanup e, minus_one) else next e ref

-- Or after a call that has done what was asked.
abbrev pub succeeded : Env × Bool → (Env → Env) → (Env → Env × Status) → Env × Status
succeeded (e, done) cleanup next = if e.pending || not done then (cleanup e, minus_one) else next e

abbrev pub nothing : Env → Env
nothing e = e
