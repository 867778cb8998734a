-- ===== src/Smoke.antt =====
-- The smoke run of c/core/main.c, behind its configuration and its two requests: the requests are
-- handed to Java, their completions counted, and all that was made is given back. What the runtime and
-- the event loop answer is a parameter; for each call of the poll also the queue that it finds.
pub mod Counts
pub mod Ends
use ckarta.Prelude.{
  ℕ, ◌+◌, Bool, true, false, not, List, [], ◌∷◌, Option, none, some, ltb, ◌==◌, if◌then◌else◌,
}
use ckarta.Status.{Status, minus_one, minus_two, minus_three, code, Answer, value, errno}
use ckarta.Request.{Request}
use ckarta.Completion.Queue.{Completion, Queue, System, is_ok}
use ckarta.Jni.Poll.{poll_completion}

-- One call of `ck_runtime_poll_completion`.
pub record Turn : Type 0 where
  pub sys : System
  pub unwritten : Completion
  pub queue : Queue

-- One round of the outer loop: the answer of the wait, the answer of the drain, and the polls.
pub record Round : Type 0 where
  pub waited : Answer ℕ
  pub drained : Status
  pub turns : List Turn

abbrev pub is_positive : Status → Bool
is_positive (code n) = not (n == 0)
is_positive minus_one = false
is_positive minus_two = false
is_positive minus_three = false

abbrev pub is_one : Status → Bool
is_one (code n) = n == 1
is_one minus_one = false
is_one minus_two = false
is_one minus_three = false

abbrev pub counted : ℕ → Status → ℕ
counted count s = if is_one s then count + 1 else count

-- `none` is a loop that goes on after the last turn.
unfoldable pub poll_loop : List Turn → List Request → ℕ → Option (List Request × ℕ × Status)
poll_loop [] requests count = none
poll_loop (t ∷ turns) requests count =
    let (q, left, s) = poll_completion t.sys true t.unwritten t.queue requests in
    let again = poll_loop turns left (counted count s) in
    if is_positive s then again else some (left, count, s)

abbrev pub eintr : ℕ
eintr = 4

abbrev pub behind_polls :
    (List Request → ℕ → Option (List Request × ℕ))
    → Option (List Request × ℕ × Status)
    → Option (List Request × ℕ)
behind_polls again none = none
behind_polls again (some (left, count, s)) =
    if is_ok s then again left count else some (left, count)

abbrev pub behind_wait :
    (List Request → ℕ → Option (List Request × ℕ))
    → List Request
    → ℕ
    → Round
    → Answer ℕ
    → Option (List Request × ℕ)
behind_wait again requests count r (errno e) =
    if e == eintr then again requests count else some (requests, count)
behind_wait again requests count r (value n) =
    if n == 0
    then again requests count
    else if not (is_ok r.drained)
    then some (requests, count)
    else behind_polls again (poll_loop r.turns requests count)

-- `none` is a run that still waits after the last round.
unfoldable pub completion_loop : List Round → List Request → ℕ → Option (List Request × ℕ)
unfolding poll_loop
completion_loop [] requests count = if ltb count 2 then none else some (requests, count)
completion_loop (r ∷ rounds) requests count =
    if ltb count 2
    then behind_wait (λ left now. completion_loop rounds left now) requests count r r.waited
    else some (requests, count)

pub data Action : Type 0 where
  destroys_loop shuts_down destroys_runtime destroys_config : Action

-- What the run has done at its end, its requests, and whether it exits with success.
pub record Ending : Type 0 where
  pub actions : List Action
  pub requests : List Request
  pub success : Bool

-- What the calls of the run answer; `dispatched` is the answer of the dispatch with the requests
-- that it leaves.
pub record Answers : Type 0 where
  pub runtime_init : Status
  pub dispatched : List Request × Status
  pub loop_init : Status
  pub loop_add : Status
  pub rounds : List Round
  pub shutdown : Status
  pub shutdown_again : Status

abbrev pub destroys_all : List Action
destroys_all = destroys_runtime ∷ destroys_config ∷ []

abbrev failure : List Request → List Action → Ending
failure requests actions = record { actions = actions; requests = requests; success = false }

abbrev pub after_loop : Answers → Option (List Request × ℕ) → Option Ending
after_loop a none = none
after_loop a (some (left, count)) = some (
    if not (count == 2)
    then failure left (destroys_loop ∷ shuts_down ∷ destroys_all)
    else if not (is_ok a.shutdown)
    then failure left (destroys_loop ∷ shuts_down ∷ destroys_all)
    else if not (is_ok a.shutdown_again)
    then failure left (destroys_loop ∷ shuts_down ∷ shuts_down ∷ destroys_all)
    else record {
      actions = destroys_loop ∷ shuts_down ∷ shuts_down ∷ destroys_all;
      requests = left;
      success = true;
    })

unfoldable pub smoke_run : Answers → List Request → Option Ending
unfolding completion_loop
smoke_run a requests =
    let (left, s) = a.dispatched in
    if not (is_ok a.runtime_init)
    then some (failure requests (destroys_config ∷ []))
    else if not (is_ok s)
    then some (failure left (shuts_down ∷ destroys_all))
    else if not (is_ok a.loop_init)
    then some (failure left (shuts_down ∷ destroys_all))
    else if not (is_ok a.loop_add)
    then some (failure left (destroys_loop ∷ shuts_down ∷ destroys_all))
    else after_loop a (completion_loop a.rounds left 0)
