-- ===== src/Connection/Race.antt =====
-- Threads that race on one lifecycle word. Each constructor of `Step` is one atomic access after
-- which the thread's call is decided: an exchange that succeeds, or the read after which the call
-- returns. An exchange that fails, also without cause, changes nothing and the loop goes round.
use ckarta.Prelude.{
  ℕ, ◌+◌, ◌≤◌, ◌<◌, ◌≡◌, refl, ap, ◌⊎◌, inl, inr, true, List, [], ◌∷◌, none, some, arith,
}
use ckarta.Connection.Word.{
  open_state, async_wait, closing, closed, last_event, pack, unpack_state, unpack_event,
  unpack_cycle, unpack_cycle-lt, valid_event, valid_cycle_id, unpack_state-pack, unpack_event-pack,
}
use ckarta.Connection.{terminal_step, answer, claim, already_same, already_different}
use ckarta.Connection.Lifecycle.{IsWord, terminal-IsWord, open-IsWord, async-IsWord}

-- The word, the events whose calls were CLAIMED, how many calls of `close` went through, and the
-- events whose calls were answered ALREADY_SAME.
pub record World : Type 0 where
  pub word : ℕ
  pub claims : List ℕ
  pub closes : ℕ
  pub confirmed : List ℕ

abbrev pub start : World
start = record { word = pack open_state none 0; claims = []; closes = 0; confirmed = [] }

pub data Step (w : World) : World → Type 0 where
  async_starts :
      (cycle_id : ℕ)
      → valid_cycle_id cycle_id ≡ true
      → w.word ≡ pack open_state none 0
      → Step w (record w { word = pack async_wait none cycle_id })
  terminal_claims :
      (event desired : ℕ)
      → valid_event event ≡ true
      → terminal_step event w.word ≡ claim desired
      → Step w (record w { word = desired; claims = event ∷ w.claims })
  terminal_confirms :
      (event : ℕ)
      → terminal_step event w.word ≡ answer already_same
      → Step w (record w { confirmed = event ∷ w.confirmed })
  terminal_loses : (event : ℕ) → terminal_step event w.word ≡ answer already_different → Step w w
  closes_now :
      (event : ℕ)
      → unpack_state w.word ≡ closing
      → unpack_event w.word ≡ some event
      → Step w (record w {
        word = pack closed (some event) (unpack_cycle w.word);
        closes = w.closes + 1;
      })

pub data Reach : World → Type 0 where
  here : Reach start
  next : {w u : World} → Reach w → Step w u → Reach u

abbrev pub AllAre : ℕ → List ℕ → Type 0
AllAre e [] = Unit
AllAre e (x ∷ xs) = (x ≡ e) × AllAre e xs

-- Nobody has claimed the connection, or one call has, whose event the word holds.
pub data Phase (w : World) : Type 0 where
  unclaimed :
      unpack_state w.word < closing → w.claims ≡ [] → w.closes ≡ 0 → w.confirmed ≡ [] → Phase w
  decided :
      (event : ℕ)
      → event ≤ last_event
      → w.claims ≡ event ∷ []
      → unpack_event w.word ≡ some event
      → ((unpack_state w.word ≡ closing) × (w.closes ≡ 0))
        ⊎ ((unpack_state w.word ≡ closed) × (w.closes ≡ 1))
      → AllAre event w.confirmed
      → Phase w

pub record IsConsistent (w : World) : Type 0 where
  pub good : IsWord w.word
  pub phase : Phase w

claim-inverse :
    (event w desired : ℕ)
    → terminal_step event w ≡ claim desired
    → (unpack_state w < closing) × (desired ≡ pack closing (some event) (unpack_cycle w))
unfolding terminal_step
claim-inverse event w desired h = ground arith

confirm-inverse :
    (event w : ℕ)
    → terminal_step event w ≡ answer already_same
    → (closing ≤ unpack_state w) × (unpack_event w ≡ some event)
unfolding terminal_step
confirm-inverse event w h = ground arith

start-IsConsistent : IsConsistent start
start-IsConsistent = record {
  good = open-IsWord;
  phase = unclaimed (omega (arith, unpack_state-pack open_state none 0)) refl refl refl;
}

async_starts-Phase :
    (w : World) (cycle_id : ℕ)
    → w.word ≡ pack open_state none 0
    → Phase w
    → Phase (record w { word = pack async_wait none cycle_id })
async_starts-Phase w cycle_id e (unclaimed low c n k) =
    unclaimed (omega (arith, unpack_state-pack async_wait none cycle_id)) c n k
async_starts-Phase w cycle_id e (decided event l c q p a) =
    absurd (omega (arith, ap unpack_state e, unpack_state-pack open_state none 0))

terminal_claims-Phase :
    (w : World) (event desired : ℕ)
    → event ≤ last_event
    → unpack_state w.word < closing
    → desired ≡ pack closing (some event) (unpack_cycle w.word)
    → Phase w
    → Phase (record w { word = desired; claims = event ∷ w.claims })
terminal_claims-Phase w event desired l low e (unclaimed _ c n k) =
    decided event l (ap (◌∷◌ event) c)
      (rw e (unpack_event-pack closing event (unpack_cycle w.word) (omega arith)))
      (inl (rw e (unpack_state-pack closing (some event) (unpack_cycle w.word) (omega arith)), n))
      (rw k tt)
terminal_claims-Phase w event desired l low e (decided event' l' c q p a) = absurd (omega arith)

terminal_confirms-Phase :
    (w : World) (event : ℕ)
    → closing ≤ unpack_state w.word
    → unpack_event w.word ≡ some event
    → Phase w
    → Phase (record w { confirmed = event ∷ w.confirmed })
terminal_confirms-Phase w event h e (unclaimed low c n k) = absurd (omega arith)
terminal_confirms-Phase w event h e (decided event' l c q p a) =
    decided event' l c q p (ground arith, a)

closes_now-Phase :
    (w : World) (event : ℕ)
    → unpack_state w.word ≡ closing
    → unpack_event w.word ≡ some event
    → Phase w
    → (event ≤ last_event)
      × Phase (record w {
        word = pack closed (some event) (unpack_cycle w.word);
        closes = w.closes + 1;
      })
closes_now-Phase w event h e (unclaimed low c n k) = absurd (omega arith)
closes_now-Phase w event h e (decided event' l c q p a) =
    let same : event ≡ event' = ground arith in
    let none_yet : w.closes ≡ 0 = ground arith in
    (
      rw same l,
      decided event (rw same l) (rw same c)
          (unpack_event-pack closed event (unpack_cycle w.word) (rw same (omega arith)))
          (inr (
            unpack_state-pack closed (some event) (unpack_cycle w.word) (omega arith),
            omega arith,
          ))
          (rw same a),
    )

Step-IsConsistent : {w u : World} → Step w u → IsConsistent w → IsConsistent u
Step-IsConsistent {w} (async_starts cycle_id v e) i = record {
  good = async-IsWord cycle_id;
  phase = async_starts-Phase w cycle_id e i.phase;
}
Step-IsConsistent {w} (terminal_claims event desired v e) i =
    let l : event ≤ last_event = ground arith in
    let (low, d) = claim-inverse event w.word desired e in
    record {
      good = rw d (
          terminal-IsWord closing event (unpack_cycle w.word) (omega arith) (omega arith) l
            (unpack_cycle-lt w.word));
      phase = terminal_claims-Phase w event desired l low d i.phase;
    }
Step-IsConsistent {w} (terminal_confirms event e) i =
    let (high, q) = confirm-inverse event w.word e in
    record { good = i.good; phase = terminal_confirms-Phase w event high q i.phase }
Step-IsConsistent (terminal_loses event e) i = i
Step-IsConsistent {w} (closes_now event h e) i =
    let (l, p) = closes_now-Phase w event h e i.phase in
    record {
      good =
          terminal-IsWord closed event (unpack_cycle w.word) (omega arith) (omega arith) l
            (unpack_cycle-lt w.word);
      phase = p;
    }

-- However the calls of start_async_cycle, try_terminal and close of any number of threads
-- interleave on a new connection: as long as nobody has claimed it nothing is closed and nobody
-- is told ALREADY_SAME; otherwise exactly one call was CLAIMED, with one of the five events, the
-- word holds that event, ALREADY_SAME was told to calls with that event only, and `close` has gone
-- through at most once, exactly if the state is CLOSED.
pub Reach-IsConsistent : {w : World} → Reach w → IsConsistent w
Reach-IsConsistent here = start-IsConsistent
Reach-IsConsistent (next r s) = Step-IsConsistent s (Reach-IsConsistent r)
