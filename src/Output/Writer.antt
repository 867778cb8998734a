-- ===== src/Output/Writer.antt =====
-- The output buffer of c/output/ck_http_output_writer.c. `bytes` is the used prefix
-- `buffer[0 .. end)`. What `send` answers is a parameter.
pub mod Pending
use ckarta.Prelude.{
  ℕ, zero, suc, ◌+◌, ◌-◌, Bool, true, false, not, ◌&&◌, ◌||◌, [], ◌++◌, Bytes, Option, none, some,
  ltb, ◌==◌, if◌then◌else◌, length, take, drop,
}
use ckarta.Status.{Status, minus_one, minus_two, ok}

abbrev pub buffer_bytes : ℕ
buffer_bytes = 65536

abbrev pub budget_bytes : ℕ
budget_bytes = 32768

pub data WriteResult : Type 0 where
  drained need_write peer_closed io_error : WriteResult

pub record Writer : Type 0 where
  pub socket_fd : Option ℕ
  pub bytes : Bytes
  pub begin : ℕ

unfoldable pub init : Writer
init = record { socket_fd = none; bytes = []; begin = 0 }

abbrev is_open : Option ℕ → Bool
is_open none = false
is_open (some fd) = true

abbrev has_socket : Writer → Bool
has_socket w = is_open w.socket_fd

-- A descriptor below 0 is `none`.
pub attach_socket : Writer → Option ℕ → Writer × Status
attach_socket w none = (w, minus_one)
attach_socket w (some fd) =
    if has_socket w then (w, minus_one) else (record w { socket_fd = some fd }, ok)

-- The bytes that are not sent move to the front where the buffer is used up to its end.
pub compact : Writer → Writer
compact w =
    if ltb 0 w.begin && length w.bytes == buffer_bytes
    then record w { bytes = drop w.begin w.bytes; begin = 0 }
    else w

pub queue : Writer → Bytes → Writer × Status
unfolding compact
queue w source =
    let c = compact w in
    if not (has_socket w)
    then (w, minus_one)
    else if ltb (buffer_bytes - length c.bytes) (length source)
    then (c, minus_two)
    else (record c { bytes = c.bytes ++ source }, ok)

-- What `ck_socket_send_nonblocking` answers: a count above 0; 0; EINTR; EAGAIN or EWOULDBLOCK;
-- EPIPE or ECONNRESET; another error.
pub data Answer : Type 0 where
  sent : ℕ → Answer
  nothing interrupted not_now broken failed : Answer

-- The outcome: no result if the loop has not ended within the fuel, the writer, and what was sent.
pub record Driven : Type 0 where
  pub result : Option WriteResult
  pub writer : Writer
  pub output : Bytes

-- Behind the loop.
pub settle : Writer → Bytes → Driven
settle w output =
    if w.begin == length w.bytes
    then record {
      result = some drained;
      writer = record w { bytes = []; begin = 0 };
      output = output;
    }
    else record { result = some need_write; writer = w; output = output }

abbrev pub stop : WriteResult → Writer → Bytes → Driven
stop r w output = record { result = some r; writer = w; output = output }

-- What follows a call of `send`: the loop, behind `n` bytes more or not, or a return.
pub behind_send : Answer → Writer → Bytes → (ℕ → Driven) → (ℕ → Driven) → Driven
behind_send (sent n) w output go_on again = go_on n
behind_send nothing w output go_on again = stop peer_closed w output
behind_send interrupted w output go_on again = again 0
behind_send not_now w output go_on again = stop need_write w output
behind_send broken w output go_on again = stop peer_closed w output
behind_send failed w output go_on again = stop io_error w output

abbrev pub attempt_length : Writer → ℕ → ℕ
attempt_length w budget =
    let pending = length w.bytes - w.begin in if ltb pending budget then pending else budget

abbrev pub has_work : Writer → ℕ → Bool
has_work w budget = ltb w.begin (length w.bytes) && not (budget == 0)

-- The loop. The fuel counts the calls of `send`, which may depend on how much is left of it; a call
-- that is not interrupted sends a byte or ends the loop.
pub drive_from : (ℕ → ℕ → Answer) → ℕ → ℕ → Writer → Bytes → Driven
unfolding settle behind_send
drive_from send zero budget w output = record { result = none; writer = w; output = output }
drive_from send (suc fuel) budget w output = elim (has_work w budget) [
  | false ↦ settle w output
  | true ↦
      behind_send (send fuel (attempt_length w budget)) w output
        (λ n.
          drive_from send fuel (budget - n) (record w { begin = w.begin + n })
            (output ++ take n (drop w.begin w.bytes)))
        (λ n. drive_from send fuel budget w output)
]

pub drive : (ℕ → ℕ → Answer) → ℕ → Writer → Driven
unfolding drive_from
drive send fuel w =
    if not (has_socket w) then stop io_error w [] else drive_from send fuel budget_bytes w []

unfoldable pub buffered_bytes : Writer → ℕ
buffered_bytes w = length w.bytes - w.begin
