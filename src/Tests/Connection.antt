-- ===== src/Tests/Connection.antt =====
-- The connection's theorems on an open, a claimed and a closed connection.
use ckarta.Prelude.{ℕ, ◌<◌, ◌≡◌, ◌≢◌, refl, sym, [], ◌∷◌, Option, none, some, arith}
use ckarta.Status.{minus_one}
use ckarta.Connection.{Connection, terminal_step, CloseResult, interrupted}
use ckarta.Connection.Word.{closing, pack, unpack_state, unpack_event, unpack_cycle}
use ckarta.Connection.Init.{init, Malloc, Ids}
use ckarta.Connection.Lifecycle.{terminal-IsWord, IsWord}
use ckarta.Connection.Race.{
  World, start, Reach, here, next, terminal_claims, IsConsistent, Reach-IsConsistent,
}

-- A connection whose lifecycle word is the given one.
abbrev with_word : ℕ → Connection
with_word w = record {
  connection_id = 7;
  request_id = 8;
  owner_token = 9;
  lifetime_token = 10;
  socket_fd = some 5;
  http_reader = some 100;
  http_request_body = some 101;
  http_writer = some 102;
  http_response = some 103;
  lifecycle = w;
}

-- ASYNC_WAIT in cycle 3, CLOSING in cycle 3 for TIMEOUT, and CLOSED.
abbrev waiting_word : ℕ
waiting_word = 0x3ff01

abbrev closing_word : ℕ
closing_word = 0x30202

abbrev closed_word : ℕ
closed_word = 0x30203

abbrev waiting : Connection
waiting = with_word waiting_word

abbrev timed_out : Connection
timed_out = with_word closing_word

abbrev done : Connection
done = with_word closed_word

closing-state : unpack_state closing_word ≡ closing
unfolding unpack_state
closing-state = refl

closing-event : unpack_event closing_word ≡ some 2
unfolding unpack_event
closing-event = refl

waiting-open : unpack_state waiting_word < closing
unfolding unpack_state
waiting-open = omega arith

closing-pack : pack closing (some 2) 3 ≡ closing_word
unfolding pack
closing-pack = refl

closing-IsWord : IsWord closing_word
closing-IsWord =
    rw (sym closing-pack)
      (terminal-IsWord closing 2 3 (omega arith) (omega arith) (omega arith) (omega arith))

-- Every descriptor is interrupted on its way to be closed.
abbrev always_interrupted : ℕ → CloseResult
always_interrupted fd = interrupted

done-state : unpack_state closed_word ≢ closing
unfolding unpack_state
done-state = ground arith

-- Blocks for the first three allocations, and for the fourth what is given.
abbrev allocator : Option ℕ → Malloc
allocator response = record {
  reader = some 1;
  writer = some 2;
  request_body = some 3;
  response = response;
}

abbrev ids : Ids
ids = record { connection_id = 7; request_id = 8; owner_token = 9; lifetime_token = 10 }

-- The second allocation fails.
abbrev no_writer : Malloc
no_writer = record { reader = some 1; writer = none; request_body = some 3; response = some 4 }

no_writer-fails : (init waiting ids no_writer (6 ∷ [])).status ≡ minus_one
unfolding init
no_writer-fails = refl

-- A world in which one call has claimed the connection for TIMEOUT.
abbrev claimed_once : World
claimed_once = record start {
  word = pack closing (some 2) (unpack_cycle start.word);
  claims = 2 ∷ [];
}

claimed_once-Reach : Reach claimed_once
unfolding terminal_step pack unpack_state unpack_event unpack_cycle
claimed_once-Reach = next here (terminal_claims 2 (pack closing (some 2) 0) refl refl)

Reach-IsConsistent_example : IsConsistent claimed_once
Reach-IsConsistent_example = Reach-IsConsistent claimed_once-Reach
