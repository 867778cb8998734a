-- ===== src/Http/Reader/Drive.antt =====
-- `ck_http_connection_reader_drive`: the outer loop, which receives, and the functions around it.
pub mod Bounds
use ckarta.Prelude.{
  ℕ, zero, suc, ◌+◌, ◌-◌, Bool, true, false, not, ◌&&◌, [], ◌++◌, Bytes, Option, none, some, ltb,
  ◌==◌, if◌then◌else◌, length, take, drop,
}
use ckarta.Http.Input
use ckarta.Http.Parser
use ckarta.Http.RequestBody
use ckarta.Http.Reader.{
  Reader, ReadResult, incomplete, too_large, io_error, Driven, Queues, Sink, Processed, left,
  drained, stuck, process, map_input_result, on_queue, has_bytes, buffer_bytes, read_budget_bytes,
  process_budget_bytes,
}

-- What `ck_socket_recv_nonblocking` answers: bytes, 0, EAGAIN or EWOULDBLOCK, EINTR, another error.
pub data Received : Type 0 where
  got : Bytes → Received
  end_of_stream not_now interrupted failed : Received

-- The bytes that are not processed move to the front where the buffer is used up to its end.
pub compact : Reader → Reader
compact r =
    if length r.bytes == buffer_bytes
    then record r { bytes = drop r.begin r.bytes; begin = 0 }
    else r

abbrev pub receive_length : Reader → ℕ → ℕ
receive_length r read_budget =
    let available = buffer_bytes - length r.bytes in
    if ltb available read_budget then available else read_budget

-- The result of a call; `none` if its rounds did not end within the fuel.
pub record Outcome : Type 0 where
  pub result : Option ReadResult
  pub driven : Driven

abbrev pub give : ReadResult → Driven → Outcome
give r d = record { result = some r; driven = d }

abbrev is_eof_incomplete : Input.Result → Bool
is_eof_incomplete Input.eof_incomplete = true
is_eof_incomplete _ = false

-- The peer has closed its side.
pub at_eof : Driven → Outcome
unfolding map_input_result on_queue
at_eof d =
    let r = Input.eof d.reader.input in
    give (map_input_result r) (
      if is_eof_incomplete r
      then record d { queues = on_queue RequestBody.mark_error d.reader.body_queue d.queues }
      else d)

-- What follows the answer of the socket: the outer loop again, with more bytes or without, or a
-- return.
pub behind_receive : Received → Driven → (Bytes → Outcome) → Outcome
unfolding at_eof
behind_receive (got b) d again = again b
behind_receive end_of_stream d again = at_eof d
behind_receive not_now d again = give incomplete d
behind_receive interrupted d again = again []
behind_receive failed d again = give io_error d

-- The outer loop behind its inner one: make room and receive.
pub behind_process : Processed → (ℕ → Received) → ℕ → (Driven → ℕ → ℕ → Outcome) → Outcome
unfolding compact behind_receive
behind_process (left r d) receive read_budget again = give r d
behind_process (stuck d) receive read_budget again = record { result = none; driven = d }
behind_process (drained d budget) receive read_budget again =
    let e = record d { reader = compact d.reader } in
    if has_bytes d.reader && budget == 0
    then give incomplete d
    else if length d.reader.bytes == buffer_bytes && d.reader.begin == 0
    then give too_large d
    else if read_budget == 0
    then give incomplete e
    else behind_receive (receive (receive_length e.reader read_budget)) e λ b.
      again (record e { reader = record e.reader { bytes = e.reader.bytes ++ b } }) budget
        (read_budget - length b)

-- The outer loop. The fuel counts the calls of `recv`, whose answers may depend on how much is left
-- of it; a call that is not interrupted returns or spends of the read budget.
pub drive_from : Option Sink → (ℕ → ℕ → Received) → ℕ → Driven → ℕ → ℕ → Outcome
unfolding process behind_process
drive_from sink receive zero d budget read_budget = record { result = none; driven = d }
drive_from sink receive (suc fuel) d budget read_budget =
    behind_process (process sink (suc budget) d budget) (receive fuel) read_budget
      (λ e rest read_rest. drive_from sink receive fuel e rest read_rest)

-- `socket_fd` is `none` if it is below 0.
pub drive : Reader → Option ℕ → Option Sink → (ℕ → ℕ → Received) → ℕ → Queues → Outcome
unfolding drive_from
drive r none sink receive fuel queues =
    give io_error (record { reader = r; queues = queues; taken = [] })
drive r (some fd) sink receive fuel queues =
    drive_from sink receive fuel (record { reader = r; queues = queues; taken = [] })
      process_budget_bytes read_budget_bytes

-- The next request keeps the bytes behind this one. `none`: this one is not complete.
unfoldable pub next_request : Reader → Queues → Option (Reader × Queues)
unfolding on_queue
next_request r queues =
    if not r.input.message_complete
    then none
    else some (
      record r { input = Input.next_request r.input; bytes = drop r.begin r.bytes; begin = 0 },
      on_queue RequestBody.init r.body_queue queues,
    )

unfoldable pub request_of : Reader → Option Parser.Request
request_of r = Input.request_of r.input

pub buffered_bytes : Reader → ℕ
buffered_bytes r = length r.bytes - r.begin
