-- ===== src/Jni/Bridge/Once.antt =====
-- The calls of Java that end an asynchronous cycle: one of them wins.
use ckarta.Prelude.{
  ◌≤◌, ◌≡◌, refl, sym, ap, ◌∙◌, Bool, true, false, not, ◌||◌, ◌==◌, if◌then◌else◌, arith,
}
use ckarta.Status.{Status, minus_one}
use ckarta.Error.{ℤ, pos, negsuc}
use ckarta.Connection.{claimed, already_same, already_different}
use ckarta.Connection.Word.{last_event}
use ckarta.Registry.{Registry, System}
use ckarta.Registry.Operations.{terminate}
use ckarta.Registry.Terminal.{terminate-twice}
use ckarta.Jni.Bridge.{
  Values, are_valid, is_positive, natural, claim_of, event_valid, registry_from_handle,
  try_terminal,
}

event-fits : (event : ℤ) → event_valid event ≡ true → natural event ≤ last_event
event-fits (pos n) h = ground arith
event-fits (negsuc n) h = ground arith

-- The values that are checked before the registry is called.
abbrev are_refused : ℤ → ℤ → Values → Bool
are_refused registry_handle handle v =
    not (registry_from_handle registry_handle) || not (is_positive handle) || not (are_valid v)

all_good : (a b c d : Bool) → a || b || c ≡ false → d ≡ true → a || b || c || not d ≡ false
all_good a b c d h e = ground arith

each_good : (a b c d : Bool) → a || b || c || not d ≡ false → (a || b || c ≡ false) × (d ≡ true)
each_good a b c d h = ground arith

if_claimed :
    {A : Type 0} (b : Bool) (refused p : A) (t : A × Status)
    → (if b then (refused, minus_one) else t) ≡ (p, claimed)
    → b ≡ false
if_claimed true refused p t h = absurd (minus_one-claimed (ap (λ x. x.1) h))
  where
    minus_one-claimed : minus_one ≡ claimed → ⊥
    minus_one-claimed e = ground arith
if_claimed false refused p t h = refl

try_terminal-accepted :
    (sys : System) (r : Registry) (registry_handle handle : ℤ) (v : Values) (event : ℤ)
    → are_refused registry_handle handle v ≡ false
    → event_valid event ≡ true
    → try_terminal sys r registry_handle handle v event
      ≡ terminate sys r (natural handle) (claim_of v) (natural v.cycle_id) (natural event)
unfolding try_terminal
try_terminal-accepted sys r registry_handle handle v event h e =
    rw
      (all_good (not (registry_from_handle registry_handle)) (not (is_positive handle))
        (not (are_valid v)) (event_valid event) h e)
      refl

claimed-accepted :
    (sys : System) (r p : Registry) (registry_handle handle : ℤ) (v : Values) (event : ℤ)
    → try_terminal sys r registry_handle handle v event ≡ (p, claimed)
    → (are_refused registry_handle handle v ≡ false) × (event_valid event ≡ true)
unfolding try_terminal
claimed-accepted sys r p registry_handle handle v event h =
    let a = not (registry_from_handle registry_handle) in
    let b = not (is_positive handle) in
    let c = not (are_valid v) in
    each_good a b c (event_valid event) (
      if_claimed (a || b || c || not (event_valid event)) r p
        (terminate sys r (natural handle) (claim_of v) (natural v.cycle_id) (natural event)) h)

-- Once a native call has claimed the end of an asynchronous cycle, any further one for it, with one
-- of the five events, changes nothing in the registry and answers ALREADY_SAME exactly if it brings
-- the same event, and ALREADY_DIFFERENT if not.
pub try_terminal-once :
    (sys : System) (r p : Registry) (registry_handle handle : ℤ) (v : Values) (first second : ℤ)
    → try_terminal sys r registry_handle handle v first ≡ (p, claimed)
    → event_valid second ≡ true
    → try_terminal sys p registry_handle handle v second
      ≡ (p, if natural first == natural second then already_same else already_different)
try_terminal-once sys r p registry_handle handle v first second h l =
    let (good, fits) = claimed-accepted sys r p registry_handle handle v first h in
    let k = claim_of v in
    let n = natural v.cycle_id in
    let begun = sym (try_terminal-accepted sys r registry_handle handle v first good fits) ∙ h in
    try_terminal-accepted sys p registry_handle handle v second good l
    ∙ terminate-twice sys r p (natural handle) k n (natural first) (natural second) begun
        (event-fits second l)
