-- ===== src/Smoke/Ends.antt =====
-- What the smoke run has done on each of its ways out.
use ckarta.Prelude.{
  ℕ, suc, ◌+◌, ◌≡◌, refl, ap, ◌∙◌, Bool, true, false, not, ◌&&◌, ◌⊎◌, inl, inr, List, [], ◌∷◌,
  Option, none, some, ◌==◌, if◌then◌else◌, arith, if_both, if_split, Bool-cases,
}
use mathlib.Core.Path.{subst}
use ckarta.Request.{Request}
use ckarta.Completion.Queue.{is_ok}
use ckarta.Smoke.{
  completion_loop, Action, destroys_loop, shuts_down, destroys_runtime, destroys_config, Ending,
  Answers, after_loop, smoke_run,
}
use ckarta.Smoke.Counts.{completed_in, Counted, completion_loop-Counted}

-- How often an action was done.
abbrev same_action : Action → Action → Bool
same_action destroys_loop destroys_loop = true
same_action shuts_down shuts_down = true
same_action destroys_runtime destroys_runtime = true
same_action destroys_config destroys_config = true
same_action destroys_loop shuts_down = false
same_action destroys_loop destroys_runtime = false
same_action destroys_loop destroys_config = false
same_action shuts_down destroys_loop = false
same_action shuts_down destroys_runtime = false
same_action shuts_down destroys_config = false
same_action destroys_runtime destroys_loop = false
same_action destroys_runtime shuts_down = false
same_action destroys_runtime destroys_config = false
same_action destroys_config destroys_loop = false
same_action destroys_config shuts_down = false
same_action destroys_config destroys_runtime = false

pub times : Action → List Action → ℕ
times a [] = 0
times a (b ∷ actions) = let rest = times a actions in if same_action a b then suc rest else rest

-- No call that destroys the runtime stands before the first call that shuts it down; `shut` tells that
-- such a call stands before the list.
pub shut_first : Bool → List Action → Bool
shut_first shut [] = true
shut_first shut (destroys_loop ∷ actions) = shut_first shut actions
shut_first shut (shuts_down ∷ actions) = shut_first true actions
shut_first shut (destroys_runtime ∷ actions) = shut && shut_first shut actions
shut_first shut (destroys_config ∷ actions) = shut_first shut actions

-- What was made on the way, and that both shutdowns answered 0.
pub record Course : Type 0 where
  pub runtime : Bool
  pub loop : Bool
  pub shut : Bool
  pub before : ℕ

abbrev pub course_of : Answers → Course
course_of a = record {
  runtime = is_ok a.runtime_init;
  loop = is_ok a.runtime_init && is_ok a.dispatched.1 && is_ok a.loop_init;
  shut = is_ok a.shutdown && is_ok a.shutdown_again;
  before = completed_in a.dispatched.0;
}

abbrev pub once_if : Bool → ℕ
once_if true = 1
once_if false = 0

-- A run that has ended: if it exits with success, two more requests are completed than `before` and
-- both shutdowns have answered 0; what was made is destroyed once, the runtime behind a shutdown.
pub record IsEnded (c : Course) (e : Ending) : Type 0 where
  pub succeeds : (e.success ≡ false) ⊎ ((completed_in e.requests ≡ c.before + 2) × (c.shut ≡ true))
  pub config_once : times destroys_config e.actions ≡ 1
  pub runtime_once : times destroys_runtime e.actions ≡ once_if c.runtime
  pub loop_once : times destroys_loop e.actions ≡ once_if c.loop
  pub shut_before : shut_first false e.actions ≡ true

failed-IsEnded :
    (c : Course) (e : Ending)
    → e.success ≡ false
    → times destroys_config e.actions ≡ 1
    → times destroys_runtime e.actions ≡ once_if c.runtime
    → times destroys_loop e.actions ≡ once_if c.loop
    → shut_first false e.actions ≡ true
    → IsEnded c e
failed-IsEnded c e h1 h2 h3 h4 h5 = record {
  succeeds = inl h1;
  config_once = h2;
  runtime_once = h3;
  loop_once = h4;
  shut_before = h5;
}

abbrev Ends : Course → Option Ending → Type 0
Ends c none = Unit
Ends c (some e) = IsEnded c e

abbrev with_loop : Bool → ℕ → Course
with_loop shut k = record { runtime = true; loop = true; shut = shut; before = k }

after_loop-Ends :
    (k : ℕ) (a : Answers) (o : Option (List Request × ℕ))
    → Counted k o
    → Ends (with_loop (is_ok a.shutdown && is_ok a.shutdown_again) k) (after_loop a o)
unfolding times shut_first
after_loop-Ends k a none h = tt
after_loop-Ends k a (some (left, count)) h =
    let P = IsEnded (with_loop (is_ok a.shutdown && is_ok a.shutdown_again) k) in
    if_split P (not (count == 2)) (λ n. failed-IsEnded _ _ refl refl refl refl refl)
      (λ n.
        if_split P (not (is_ok a.shutdown)) (λ m. failed-IsEnded _ _ refl refl refl refl refl)
          (λ m.
            if_split P (not (is_ok a.shutdown_again))
              (λ l. failed-IsEnded _ _ refl refl refl refl refl)
              (λ l. record {
                succeeds = inr (h ∙ ap (λ c. k + c) (is_two count n), ground (arith, m, l));
                config_once = refl;
                runtime_once = refl;
                loop_once = refl;
                shut_before = refl;
              })))
  where
    is_two : (n : ℕ) → not (n == 2) ≡ false → n ≡ 2
    is_two n h = ground arith

smoke_run-Ends : (a : Answers) (requests : List Request) → Ends (course_of a) (smoke_run a requests)
unfolding smoke_run times shut_first
smoke_run-Ends a requests = elim (Bool-cases (is_ok a.runtime_init)) [
  | inr h ↦ rw h (failed-IsEnded _ _ refl refl refl refl refl)
  | inl h ↦ elim (Bool-cases (is_ok a.dispatched.1)) [
    | inr i ↦ rw (h, i) (failed-IsEnded _ _ refl refl refl refl refl)
    | inl i ↦ elim (Bool-cases (is_ok a.loop_init)) [
      | inr j ↦ rw (h, i, j) (failed-IsEnded _ _ refl refl refl refl refl)
      | inl j ↦
          rw (h, i, j)
            (if_both
              (Ends (
                with_loop (is_ok a.shutdown && is_ok a.shutdown_again)
                  (completed_in a.dispatched.0)))
              (not (is_ok a.loop_add)) (failed-IsEnded _ _ refl refl refl refl refl)
              (after_loop-Ends (completed_in a.dispatched.0) a
                (completion_loop a.rounds a.dispatched.0 0)
                (completion_loop-Counted (completed_in a.dispatched.0) a.rounds a.dispatched.0 0
                  (omega arith))))
    ]
  ]
]

-- When the smoke run comes to an end, it exits with success only if two more requests are completed
-- than after the dispatch and both of its shutdowns have answered 0. On each of its ways out the
-- configuration is destroyed once, the event loop is destroyed once where it was made and not at all
-- where not, and `ck_runtime_destroy` is called once where the runtime was made, behind a call of
-- `ck_runtime_shutdown`, and not at all where not.
pub smoke_run-IsEnded :
    (a : Answers) (requests : List Request) (e : Ending)
    → smoke_run a requests ≡ some e
    → IsEnded (course_of a) e
smoke_run-IsEnded a requests e h = subst (Ends (course_of a)) h (smoke_run-Ends a requests)
