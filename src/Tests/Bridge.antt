-- ===== src/Tests/Bridge.antt =====
-- A connection that waits for the end of cycle 3: a timeout comes, and then a completion.
use ckarta.Prelude.{◌+◌, ◌*◌, ◌^◌, ◌≡◌, refl, true, none, ◌==◌, if◌then◌else◌}
use ckarta.Status.{ok}
use ckarta.Error.{pos}
use ckarta.Connection as Connection
use ckarta.Connection.{claimed, already_same, already_different, terminal_step, validate_cycle}
use ckarta.Connection.Word.{pack, unpack_state, unpack_event, unpack_cycle}
use ckarta.Registry.{
  Registry, Entry, System, find, put, decode_handle, lookup, checked, find_at, put_entry,
  put_connection,
}
use ckarta.Registry.Operations.{terminate, terminate_at}
use ckarta.Jni.Bridge.{Values, natural, are_valid, try_terminal}
use ckarta.Jni.Bridge.Once.{try_terminal-once}

abbrev waiting_entry : Entry
waiting_entry = record {
  connection = record {
    connection_id = 7;
    request_id = 8;
    owner_token = 9;
    lifetime_token = 10;
    socket_fd = none;
    http_reader = none;
    http_request_body = none;
    http_writer = none;
    http_response = none;
    lifecycle = 3 * 2 ^ 16 + 0xff * 2 ^ 8 + 1;
  };
  generation = 1;
  reader_users = 0;
  output_users = 0;
  active = true;
}

abbrev table : Registry
table = record { entries = λ i. waiting_entry; initialized = true }

abbrev sys : System
sys = record { locked = true; unlock = ok }

abbrev values : Values
values = record {
  request_id = pos 8;
  owner_token = pos 9;
  lifetime_token = pos 10;
  cycle_id = pos 3;
}

abbrev timed_out : Registry
timed_out = (try_terminal sys table (pos 4096) (pos 0x100000001) values (pos 2)).0

timeout_wins :
    try_terminal sys table (pos 4096) (pos 0x100000001) values (pos 2) ≡ (timed_out, claimed)
unfolding try_terminal are_valid terminate terminate_at lookup checked find find_at decode_handle
    put put_entry put_connection Connection.try_terminal terminal_step validate_cycle unpack_state
    unpack_event unpack_cycle pack
timeout_wins = refl

try_terminal-once_example :
    try_terminal sys timed_out (pos 4096) (pos 0x100000001) values (pos 0)
    ≡ (timed_out, if natural (pos 2) == natural (pos 0) then already_same else already_different)
try_terminal-once_example =
    try_terminal-once sys table timed_out (pos 4096) (pos 0x100000001) values (pos 2) (pos 0)
      timeout_wins refl
