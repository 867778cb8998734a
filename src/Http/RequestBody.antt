-- ===== src/Http/RequestBody.antt =====
-- The byte queue of c/http/ck_http_request_body.c between the connection's thread, which writes,
-- and the servlet's, which reads: a ring of 65536 bytes with two counters that only grow, and wrap
-- at 2 ^ 64. The buffer is a function from its indices; the flags are Booleans.
pub mod Ring
pub mod Fifo
pub mod Order
use ckarta.Prelude.{
  ℕ, zero, suc, ◌+◌, ◌-◌, ◌*◌, ◌%◌, ◌^◌, Bool, true, false, ◌&&◌, ◌||◌, List, [], ◌∷◌, ◌++◌, Bytes,
  ltb, leb, ◌==◌, if◌then◌else◌, length, get_or, add64, sub64,
}

abbrev pub buffer_bytes : ℕ
buffer_bytes = 65536

pub data WriteResult : Type 0 where
  written would_block closed write_invalid : WriteResult

pub data ReadResult : Type 0 where
  read_bytes no_bytes end_of_body failed read_invalid : ReadResult

pub record RequestBody : Type 0 where
  pub head : ℕ
  pub tail : ℕ
  pub eof : Bool
  pub error : Bool
  pub buffer : ℕ → ℕ

-- `init` leaves the bytes of the buffer as they are.
unfoldable pub init : RequestBody → RequestBody
init b = record b { head = 0; tail = 0; eof = false; error = false }

unfoldable pub body_used : ℕ → ℕ → ℕ
body_used head tail = sub64 head tail

-- `memcpy(buffer + to, data + from, n)`.
pub copy_in : (ℕ → ℕ) → ℕ → Bytes → ℕ → ℕ → ℕ → ℕ
copy_in buffer to data_bytes from n i =
    if leb to i && ltb i (to + n) then get_or data_bytes (from + (i - to)) 0 else buffer i

-- `n` bytes from `buffer + from` on, as `memcpy` reads them.
pub copy_out : (ℕ → ℕ) → ℕ → ℕ → Bytes
copy_out buffer from zero = []
copy_out buffer from (suc n) = buffer from ∷ copy_out buffer (from + 1) n

-- The length of the first of the two copies, up to the end of the buffer.
abbrev pub first_length : ℕ → ℕ → ℕ
first_length position n =
    let first = buffer_bytes - position % buffer_bytes in if ltb n first then n else first

-- The two copies of `write`.
pub store : (ℕ → ℕ) → ℕ → Bytes → ℕ → ℕ
unfolding copy_in
store buffer head source =
    let n = length source in
    let first = first_length head n in
    let stored = copy_in buffer (head % buffer_bytes) source 0 first in
    if ltb first n then copy_in stored 0 source first (n - first) else stored

-- The two copies of `read`.
pub fetch : (ℕ → ℕ) → ℕ → ℕ → Bytes
unfolding copy_out
fetch buffer tail n =
    let first = first_length tail n in
    let front = copy_out buffer (tail % buffer_bytes) first in
    if ltb first n then front ++ copy_out buffer 0 (n - first) else front

-- The result, the new queue and `*written`.
pub write : RequestBody → Bytes → WriteResult × RequestBody × ℕ
unfolding body_used store
write b source =
    let n = length source in
    let used = body_used b.head b.tail in
    if n == 0
    then (written, b, 0)
    else if b.eof || b.error
    then (closed, b, 0)
    else if ltb buffer_bytes used
    then (write_invalid, b, 0)
    else if ltb (buffer_bytes - used) n
    then (would_block, b, 0)
    else (written, record b { buffer = store b.buffer b.head source; head = add64 b.head n }, n)

-- The result, the new queue and the bytes that are stored through `data`.
pub read : RequestBody → ℕ → ReadResult × RequestBody × Bytes
unfolding body_used fetch
read b capacity =
    let available = body_used b.head b.tail in
    let n = if ltb capacity available then capacity else available in
    if ltb buffer_bytes available
    then (read_invalid, b, [])
    else if available == 0
    then (if b.error then failed else if b.eof then end_of_body else no_bytes, b, [])
    else if capacity == 0
    then (no_bytes, b, [])
    else (read_bytes, record b { tail = add64 b.tail n }, fetch b.buffer b.tail n)

pub mark_eof : RequestBody → RequestBody
mark_eof b = record b { eof = true }

pub mark_error : RequestBody → RequestBody
mark_error b = record b { error = true }

unfoldable pub available : RequestBody → ℕ
unfolding body_used
available b = let n = body_used b.head b.tail in if ltb buffer_bytes n then 0 else n

unfoldable pub is_finished : RequestBody → Bool
unfolding available
is_finished b = b.eof && available b == 0
