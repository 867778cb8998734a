-- ===== src/Request/Race.antt =====
-- Threads that race on one request. A constructor of `Step` is one atomic access; `fail` takes
-- three steps, and any other call may come between them.
use ckarta.Prelude.{ℕ, suc, ◌≤◌, ◌≡◌, refl, ap, ◌⊎◌, inl, inr, List, [], ◌∷◌, arith}
use ckarta.Error.{Error}
use ckarta.Request.{
  pending, running, cancelling, failing, completed, failed, claim, begin_attempt, cancel_attempt,
  fail_attempt, finish_attempt,
}

-- Where the call of `fail` that won is: it has claimed the request, or it has also stored its error.
pub data Failer : Type 0 where
  nobody : Failer
  claimed stored : Error → Failer

-- The state and the error of the request, the failing call under way, how many calls of `begin`
-- returned 0, the winners among cancel, finish and fail, and the errors that readers of
-- `ck_request_error` were given.
pub data Winner : Type 0 where
  cancelled finished : Winner
  failed_with : Error → Winner

pub record World : Type 0 where
  pub state : ℕ
  pub error : Error
  pub failer : Failer
  pub begins : ℕ
  pub winners : List Winner
  pub seen : List Error

abbrev pub start : Error → World
start e = record {
  state = pending;
  error = e;
  failer = nobody;
  begins = 0;
  winners = [];
  seen = [];
}

pub data Step (w : World) : World → Type 0 where
  begins_now :
      begin_attempt w.state ≡ claim running
      → Step w (record w { state = running; begins = suc w.begins })
  cancels :
      cancel_attempt w.state ≡ claim cancelling
      → Step w (record w { state = cancelling; winners = cancelled ∷ w.winners })
  finishes :
      finish_attempt w.state ≡ claim completed
      → Step w (record w { state = completed; winners = finished ∷ w.winners })
  fail_claims :
      (e : Error)
      → fail_attempt w.state ≡ claim failing
      → Step w
          (record w { state = failing; failer = claimed e; winners = failed_with e ∷ w.winners })
  fail_stores :
      (e : Error) → w.failer ≡ claimed e → Step w (record w { error = e; failer = stored e })
  fail_publishes :
      (e : Error) → w.failer ≡ stored e → Step w (record w { state = failed; failer = nobody })
  reads_error : w.state ≡ failed → Step w (record w { seen = w.error ∷ w.seen })

pub data Reach (e : Error) : World → Type 0 where
  here : Reach e (start e)
  next : {w u : World} → Reach e w → Step w u → Reach e u

abbrev pub AllAre : Error → List Error → Type 0
AllAre e [] = Unit
AllAre e (x ∷ xs) = (x ≡ e) × AllAre e xs

-- Nobody has won, or one call has, and the state tells which.
pub data IsConsistent (w : World) : Type 0 where
  waiting :
      w.state ≡ pending
      → w.begins ≡ 0
      → w.winners ≡ []
      → w.failer ≡ nobody
      → w.seen ≡ []
      → IsConsistent w
  at_work :
      w.state ≡ running
      → w.begins ≡ 1
      → w.winners ≡ []
      → w.failer ≡ nobody
      → w.seen ≡ []
      → IsConsistent w
  is_cancelled :
      w.state ≡ cancelling
      → w.begins ≤ 1
      → w.winners ≡ cancelled ∷ []
      → w.failer ≡ nobody
      → w.seen ≡ []
      → IsConsistent w
  is_finished :
      w.state ≡ completed
      → w.begins ≡ 1
      → w.winners ≡ finished ∷ []
      → w.failer ≡ nobody
      → w.seen ≡ []
      → IsConsistent w
  is_failing :
      (e : Error)
      → w.state ≡ failing
      → w.begins ≡ 1
      → w.winners ≡ failed_with e ∷ []
      → (w.failer ≡ claimed e) ⊎ ((w.failer ≡ stored e) × (w.error ≡ e))
      → w.seen ≡ []
      → IsConsistent w
  is_failed :
      (e : Error)
      → w.state ≡ failed
      → w.begins ≡ 1
      → w.winners ≡ failed_with e ∷ []
      → w.failer ≡ nobody
      → w.error ≡ e
      → AllAre e w.seen
      → IsConsistent w

begin-inverse : (s : ℕ) → begin_attempt s ≡ claim running → s ≡ pending
unfolding begin_attempt
begin-inverse s h = ground arith

cancel-inverse : (s : ℕ) → cancel_attempt s ≡ claim cancelling → s ≤ running
unfolding cancel_attempt
cancel-inverse s h = ground arith

finish-inverse : (s : ℕ) → finish_attempt s ≡ claim completed → s ≡ running
unfolding finish_attempt
finish-inverse s h = ground arith

fail-inverse : (s : ℕ) → fail_attempt s ≡ claim failing → s ≡ running
unfolding fail_attempt
fail-inverse s h = ground arith

-- What holds until a call wins.
record IsUndecided (w : World) : Type 0 where
  begun : w.begins ≡ w.state
  no_winner : w.winners ≡ []
  no_failer : w.failer ≡ nobody
  unseen : w.seen ≡ []

undecided : (w : World) → w.state ≤ running → IsConsistent w → IsUndecided w
undecided w h (waiting s b c f r) = record {
  begun = omega arith;
  no_winner = c;
  no_failer = f;
  unseen = r;
}
undecided w h (at_work s b c f r) = record {
  begun = omega arith;
  no_winner = c;
  no_failer = f;
  unseen = r;
}
undecided w h (is_cancelled s b c f r) = absurd (omega arith)
undecided w h (is_finished s b c f r) = absurd (omega arith)
undecided w h (is_failing e s b c f r) = absurd (omega arith)
undecided w h (is_failed e s b c f k r) = absurd (omega arith)

stores-IsConsistent :
    (w : World) (e : Error)
    → w.failer ≡ claimed e
    → IsConsistent w
    → IsConsistent (record w { error = e; failer = stored e })
stores-IsConsistent w e h (waiting s b c f r) = ground arith
stores-IsConsistent w e h (at_work s b c f r) = ground arith
stores-IsConsistent w e h (is_cancelled s b c f r) = ground arith
stores-IsConsistent w e h (is_finished s b c f r) = ground arith
stores-IsConsistent w e h (is_failing d s b c f r) =
    is_failing e s b (ground arith) (inr (refl, refl)) r
stores-IsConsistent w e h (is_failed d s b c f k r) = ground arith

publishes-IsConsistent :
    (w : World) (e : Error)
    → w.failer ≡ stored e
    → IsConsistent w
    → IsConsistent (record w { state = failed; failer = nobody })
publishes-IsConsistent w e h (waiting s b c f r) = ground arith
publishes-IsConsistent w e h (at_work s b c f r) = ground arith
publishes-IsConsistent w e h (is_cancelled s b c f r) = ground arith
publishes-IsConsistent w e h (is_finished s b c f r) = ground arith
publishes-IsConsistent w e h (is_failing d s b c f r) =
    is_failed d refl b c refl (ground arith) (rw r tt)
publishes-IsConsistent w e h (is_failed d s b c f k r) = ground arith

reads-IsConsistent :
    (w : World)
    → w.state ≡ failed
    → IsConsistent w
    → IsConsistent (record w { seen = w.error ∷ w.seen })
reads-IsConsistent w h (waiting s b c f r) = absurd (omega arith)
reads-IsConsistent w h (at_work s b c f r) = absurd (omega arith)
reads-IsConsistent w h (is_cancelled s b c f r) = absurd (omega arith)
reads-IsConsistent w h (is_finished s b c f r) = absurd (omega arith)
reads-IsConsistent w h (is_failing d s b c f r) = absurd (omega arith)
reads-IsConsistent w h (is_failed d s b c f k r) = is_failed d s b c f k (k, r)

Step-IsConsistent : {w u : World} → Step w u → IsConsistent w → IsConsistent u
Step-IsConsistent {w} (begins_now h) i =
    let s = begin-inverse w.state h in
    let v = undecided w (omega (arith, s)) i in
    at_work refl (omega (arith, v.begun, s)) v.no_winner v.no_failer v.unseen
Step-IsConsistent {w} (cancels h) i =
    let s = cancel-inverse w.state h in
    let v = undecided w s i in
    is_cancelled refl (omega (arith, v.begun, s)) (ap (◌∷◌ cancelled) v.no_winner) v.no_failer
      v.unseen
Step-IsConsistent {w} (finishes h) i =
    let s = finish-inverse w.state h in
    let v = undecided w (omega (arith, s)) i in
    is_finished refl (omega (arith, v.begun, s)) (ap (◌∷◌ finished) v.no_winner) v.no_failer
      v.unseen
Step-IsConsistent {w} (fail_claims e h) i =
    let s = fail-inverse w.state h in
    let v = undecided w (omega (arith, s)) i in
    is_failing e refl (omega (arith, v.begun, s)) (ap (◌∷◌ (failed_with e)) v.no_winner) (inl refl)
      v.unseen
Step-IsConsistent {w} (fail_stores e h) i = stores-IsConsistent w e h i
Step-IsConsistent {w} (fail_publishes e h) i = publishes-IsConsistent w e h i
Step-IsConsistent {w} (reads_error h) i = reads-IsConsistent w h i

-- However the calls of begin, cancel, finish, fail and error of any number of threads interleave on
-- a new request: `begin` succeeds at most once; at most one call of cancel, finish and fail wins,
-- and the state is the one that it leads to; finish and fail win only after `begin`; and every
-- error that `ck_request_error` gives is the error of the one `fail` that won, whole.
pub request_Reach-IsConsistent : {e : Error} {w : World} → Reach e w → IsConsistent w
request_Reach-IsConsistent here = waiting refl refl refl refl refl
request_Reach-IsConsistent (next r s) = Step-IsConsistent s (request_Reach-IsConsistent r)
