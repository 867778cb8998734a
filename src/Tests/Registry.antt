-- ===== src/Tests/Registry.antt =====
-- The table of connections: one is registered, and its reader and its writer are pinned.
use ckarta.Prelude.{ℕ, ◌≡◌, refl, true, false, [], ◌∷◌, none, some, arith}
use ckarta.Status.{ok}
use ckarta.Connection.{state, validate}
use ckarta.Connection.Word.{pack, unpack_state}
use ckarta.Connection.Init.{Malloc, Ids, init as init_connection}
use ckarta.Registry.{
  Entry, System, Claim, init, register, make_handle, find, put, first_free, next_generation,
  decode_handle, lookup, checked, find_at, put_entry, register_in, register_at,
}
use ckarta.Registry.Operations.{
  acquire_at, empty_pin, reader_acquire, output_acquire, reader_release, output_release,
}
use ckarta.Registry.Pins.{readers, writers, Each}
use ckarta.Registry.Pins.Taken.{out}
use ckarta.Registry.Pins.Steps.{
  World, Reach, here, next, registers, acquires_reader, acquires_output,
}
use ckarta.Registry.Pins.Run.{IsSafe, Reach-IsSafe}
use ckarta.Registry.Table.{Outcome, register-Outcome}

abbrev zeros : Entry
zeros = record {
  connection = record {
    connection_id = 0;
    request_id = 0;
    owner_token = 0;
    lifetime_token = 0;
    socket_fd = none;
    http_reader = none;
    http_request_body = none;
    http_writer = none;
    http_response = none;
    lifecycle = 0;
  };
  generation = 0;
  reader_users = 0;
  output_users = 0;
  active = false;
}

abbrev sys : System
sys = record { locked = true; unlock = ok }

abbrev ids : Ids
ids = record { connection_id = 7; request_id = 8; owner_token = 9; lifetime_token = 10 }

abbrev blocks : Malloc
blocks = record { reader = some 1; writer = some 2; request_body = some 3; response = some 4 }

abbrev tokens : Claim
tokens = record { request_id = 8; owner_token = 9; lifetime_token = 10 }

-- Generation 1 in slot 1.
abbrev handle : ℕ
handle = 0x100000001

abbrev registered : World
registered = record {
  registry = (register sys (init zeros) ids blocks []).registry;
  reader_pins = [];
  output_pins = [];
}

abbrev pinned : World
pinned = record registered {
  registry = (reader_acquire sys registered.registry handle tokens empty_pin).0;
  reader_pins =
      out (reader_acquire sys registered.registry handle tokens empty_pin).1 registered.reader_pins;
}

abbrev twice_pinned : World
twice_pinned = record pinned {
  registry = (output_acquire sys pinned.registry handle tokens empty_pin).0;
  output_pins =
      out (output_acquire sys pinned.registry handle tokens empty_pin).1 pinned.output_pins;
}

reach : Reach zeros twice_pinned
reach =
    next
      (next (next here (registers sys ids blocks []))
        (acquires_reader sys handle tokens (omega arith)))
      (acquires_output sys handle tokens (omega arith))

Reach-IsSafe_example :
    Each (IsSafe readers reader_release twice_pinned.registry) twice_pinned.reader_pins
    × Each (IsSafe writers output_release twice_pinned.registry) twice_pinned.output_pins
Reach-IsSafe_example = Reach-IsSafe {zeros = zeros} {w = twice_pinned} (refl, refl, refl) reach

register-Outcome_example : Outcome (init zeros) ids (register sys (init zeros) ids blocks [])
register-Outcome_example = register-Outcome sys (init zeros) ids blocks []

-- The pins that are out there.
pins_out :
    (twice_pinned.reader_pins
      ≡ record { connection = some 0; object = some 1; handle = handle } ∷ [])
    × (twice_pinned.output_pins
        ≡ record { connection = some 0; object = some 2; handle = handle } ∷ [])
unfolding init register register_in register_at reader_acquire output_acquire acquire_at lookup
    checked find find_at decode_handle first_free put_entry put next_generation make_handle
    init_connection state validate out unpack_state pack
pins_out = (refl, refl)
