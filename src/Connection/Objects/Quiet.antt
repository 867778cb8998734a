-- ===== src/Connection/Objects/Quiet.antt =====
-- The operations of c/connection/ck_connection.c that neither close the connection nor touch its
-- objects.
use ckarta.Prelude.{ℕ, ◌≡◌, ◌≢◌, Option, some, none, arith}
use ckarta.Connection.{Connection, state, start_async_cycle, try_terminal, terminal_step}
use ckarta.Connection.Objects.{Objects, attach_socket}
use ckarta.Connection.Word.{async_wait, closing, closed, unpack_cycle, unpack_state-pack}

-- The operation keeps the objects of the connection and does not close it.
pub record IsQuiet (c d : Connection) : Type 0 where
  pub reader_kept : d.http_reader ≡ c.http_reader
  pub writer_kept : d.http_writer ≡ c.http_writer
  pub not_closed : state c ≢ closed → state d ≢ closed

pub attach_socket-IsQuiet :
    (o : Objects) (c : Connection) (fd : Option ℕ) → IsQuiet c (attach_socket o c fd).1
unfolding attach_socket state
attach_socket-IsQuiet o c fd = record {
  reader_kept = ground arith;
  writer_kept = ground arith;
  not_closed = λ h. ground arith;
}

pub start_async_cycle-IsQuiet :
    (c : Connection) (cycle_id : ℕ) → IsQuiet c (start_async_cycle c cycle_id).0
unfolding start_async_cycle state
start_async_cycle-IsQuiet c cycle_id =
    let w = unpack_state-pack async_wait none cycle_id (omega arith) in
    record {
      reader_kept = ground arith;
      writer_kept = ground arith;
      not_closed = λ h. ground (arith, w);
    }

pub try_terminal-IsQuiet : (c : Connection) (event : ℕ) → IsQuiet c (try_terminal c event).0
unfolding try_terminal terminal_step state
try_terminal-IsQuiet c event =
    let w = unpack_state-pack closing (some event) (unpack_cycle c.lifecycle) (omega arith) in
    record {
      reader_kept = ground arith;
      writer_kept = ground arith;
      not_closed = λ h. ground (arith, w);
    }
