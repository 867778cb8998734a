-- ===== src/Connection/Lifecycle.antt =====
-- The life of a connection: which word follows which, and what each call answers.
use ckarta.Prelude.{ℕ, ◌^◌, ◌≤◌, ◌<◌, ◌≡◌, ◌≢◌, refl, none, some, ◌==◌, if◌then◌else◌, arith}
use ckarta.Status.{code}
use ckarta.Connection.Word.{
  open_state, async_wait, closing, closed, last_event, pack, unpack_state, unpack_event,
  unpack_cycle, unpack_cycle-lt, unpack_state-pack, unpack_cycle-pack, unpack_event-pack,
  unpack_event-pack-none,
}
use ckarta.Connection.{
  Connection, try_terminal, terminal_step, answer, claim, claimed, already_same, already_different,
  close, CloseResult,
}

-- The words that occur: a state, with an event exactly from `closing` on, and no cycle while open.
pub record IsWord (w : ℕ) : Type 0 where
  pub known : unpack_state w ≤ closed
  pub quiet : unpack_state w < closing → unpack_event w ≡ none
  pub decided : closing ≤ unpack_state w → (e : ℕ) × (unpack_event w ≡ some e) × (e ≤ last_event)
  pub fresh : unpack_state w ≡ open_state → w ≡ pack open_state none 0

pub terminal_step-claims :
    (event w : ℕ)
    → unpack_state w < closing
    → terminal_step event w ≡ claim (pack closing (some event) (unpack_cycle w))
unfolding terminal_step
terminal_step-claims event w h = ground arith

pub terminal_step-answers :
    (event e w : ℕ)
    → closing ≤ unpack_state w
    → unpack_state w ≤ closed
    → unpack_event w ≡ some e
    → terminal_step event w ≡ answer (if e == event then already_same else already_different)
unfolding terminal_step
terminal_step-answers event e w h k q = ground arith

-- A terminal word, of an event and a cycle id that fit.
pub terminal-IsWord :
    (s event cycle_id : ℕ)
    → closing ≤ s
    → s ≤ closed
    → event ≤ last_event
    → cycle_id < 2 ^ 48
    → IsWord (pack s (some event) cycle_id)
terminal-IsWord s event cycle_id h k e c =
    let q : unpack_state (pack s (some event) cycle_id) ≡ s =
      unpack_state-pack s (some event) cycle_id (omega arith) in
    record {
      known = omega (arith, q);
      quiet = λ low. absurd (omega (arith, q));
      decided = λ high. (event, unpack_event-pack s event cycle_id (omega arith), e);
      fresh = λ zero_state. absurd (omega (arith, q));
    }

-- On an open or waiting connection `try_terminal` with one of the five events claims it: it moves
-- to CLOSING, records that event and keeps the cycle id.
pub try_terminal-claims :
    (c : Connection) (event : ℕ)
    → unpack_state c.lifecycle < closing
    → event ≤ last_event
    → let (d, s) = try_terminal c event in
      (s ≡ claimed)
      × (unpack_state d.lifecycle ≡ closing)
      × (unpack_event d.lifecycle ≡ some event)
      × (unpack_cycle d.lifecycle ≡ unpack_cycle c.lifecycle)
unfolding try_terminal
try_terminal-claims c event h e =
    let n = unpack_cycle c.lifecycle in
    ground (
      arith,
      terminal_step-claims event c.lifecycle,
      unpack_state-pack closing (some event) n (omega arith),
      unpack_event-pack closing event n (omega arith),
      unpack_cycle-pack closing (some event) n (unpack_cycle-lt c.lifecycle),
    )

-- On a connection that is closing or closed it changes nothing, and answers ALREADY_SAME exactly
-- for the event that was recorded.
pub try_terminal-already :
    (c : Connection) (e event : ℕ)
    → IsWord c.lifecycle
    → closing ≤ unpack_state c.lifecycle
    → unpack_event c.lifecycle ≡ some e
    → event ≤ last_event
    → try_terminal c event ≡ (c, if e == event then already_same else already_different)
unfolding try_terminal
try_terminal-already c e event w h q k =
    ground (arith, terminal_step-answers event e c.lifecycle h w.known q)

-- The first terminal event wins: whatever events two calls bring, the second one changes nothing.
pub try_terminal-twice :
    (c : Connection) (first second : ℕ)
    → unpack_state c.lifecycle < closing
    → first ≤ last_event
    → second ≤ last_event
    → let c1 = (try_terminal c first).0 in
      try_terminal c1 second ≡ (c1, if first == second then already_same else already_different)
unfolding try_terminal
try_terminal-twice c first second h k l =
    let n = unpack_cycle c.lifecycle in
    let w =
      terminal-IsWord closing first n (omega arith) (omega arith) k (unpack_cycle-lt c.lifecycle) in
    ground (
      arith,
      terminal_step-claims first c.lifecycle h,
      terminal_step-answers second first (pack closing (some first) n),
      unpack_state-pack closing (some first) n (omega arith),
      unpack_event-pack closing first n (omega arith),
    )

-- The state of `close`: only a closing connection with an event closes; it then has no socket and
-- no HTTP object, whatever the system answers, and keeps its event and its cycle id.
pub close-closes :
    (close_socket : ℕ → CloseResult) (c : Connection) (e : ℕ)
    → unpack_state c.lifecycle ≡ closing
    → unpack_event c.lifecycle ≡ some e
    → e ≤ last_event
    → let d = (close close_socket c).0 in
      (unpack_state d.lifecycle ≡ closed)
      × (unpack_event d.lifecycle ≡ some e)
      × (unpack_cycle d.lifecycle ≡ unpack_cycle c.lifecycle)
      × (d.socket_fd ≡ none)
      × (d.http_reader ≡ none)
      × (d.http_request_body ≡ none)
      × (d.http_writer ≡ none)
      × (d.http_response ≡ none)
unfolding close
close-closes close_socket c e h q k =
    let n = unpack_cycle c.lifecycle in
    ground (
      arith,
      unpack_state-pack closed (some e) n (omega arith),
      unpack_event-pack closed e n (omega arith),
      unpack_cycle-pack closed (some e) n (unpack_cycle-lt c.lifecycle),
    )

-- In every other state `close` answers 1 and changes nothing, so that it closes once.
pub close-refuses :
    (close_socket : ℕ → CloseResult) (c : Connection)
    → unpack_state c.lifecycle ≢ closing
    → close close_socket c ≡ (c, code 1)
unfolding close
close-refuses close_socket c h = ground arith

pub open-IsWord : IsWord (pack open_state none 0)
open-IsWord =
    let q : unpack_state (pack open_state none 0) ≡ open_state =
      unpack_state-pack open_state none 0 (omega arith) in
    record {
      known = omega (arith, q);
      quiet = λ low. unpack_event-pack-none open_state 0;
      decided = λ high. absurd (omega (arith, q));
      fresh = λ zero_state. refl;
    }

pub async-IsWord : (cycle_id : ℕ) → IsWord (pack async_wait none cycle_id)
async-IsWord cycle_id =
    let q : unpack_state (pack async_wait none cycle_id) ≡ async_wait =
      unpack_state-pack async_wait none cycle_id (omega arith) in
    record {
      known = omega (arith, q);
      quiet = λ low. unpack_event-pack-none async_wait cycle_id;
      decided = λ high. absurd (omega (arith, q));
      fresh = λ zero_state. absurd (omega (arith, q));
    }
