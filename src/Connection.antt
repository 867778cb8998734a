-- ===== src/Connection.antt =====
-- The connection object of c/connection/ck_connection.c: the packed lifecycle word, and the
-- operations on it and on the socket descriptor. An operation returns the new connection and its
-- result; the interleavings of the atomic steps of several threads are in `Race`.
pub mod Word
pub mod Init
pub mod Lifecycle
pub mod Race
pub mod Objects
use ckarta.Prelude.{
  ℕ, ◌<◌, Bool, true, false, not, ◌&&◌, ◌||◌, Option, none, some, ltb, leb, ◌==◌, if◌then◌else◌,
}
use ckarta.Status.{Status, minus_one, code, ok}
use Word.{
  open_state, async_wait, closing, closed, pack, unpack_state, unpack_event, unpack_cycle,
  valid_event, valid_cycle_id,
}

-- A descriptor below 0 is `none`, and so is the pointer NULL. A block is named by its number.
pub record Connection : Type 0 where
  pub connection_id : ℕ
  pub request_id : ℕ
  pub owner_token : ℕ
  pub lifetime_token : ℕ
  pub socket_fd : Option ℕ
  pub http_reader : Option ℕ
  pub http_request_body : Option ℕ
  pub http_writer : Option ℕ
  pub http_response : Option ℕ
  pub lifecycle : ℕ

unfoldable pub state : Connection → ℕ
state c = unpack_state c.lifecycle

pub terminal_event : Connection → Option ℕ
terminal_event c = unpack_event c.lifecycle

-- An atomic compare and exchange of the word with no other thread at work.
abbrev pub exchange : Connection → ℕ → ℕ → Status → Status → Connection × Status
exchange c expected desired done lost =
    if c.lifecycle == expected then (record c { lifecycle = desired }, done) else (c, lost)

pub start_async_cycle : Connection → ℕ → Connection × Status
start_async_cycle c cycle_id =
    if not (valid_cycle_id cycle_id)
    then (c, minus_one)
    else exchange c (pack open_state none 0) (pack async_wait none cycle_id) ok (code 1)

pub start_async : Connection → Connection × Status
unfolding start_async_cycle
start_async c = start_async_cycle c 1

-- CLAIMED, ALREADY_SAME, ALREADY_DIFFERENT.
abbrev pub claimed : Status
claimed = code 0

abbrev pub already_same : Status
already_same = code 1

abbrev pub already_different : Status
already_different = code 2

-- What the loop of `try_terminal` does with the word that it has read: return, or try to exchange.
pub data TerminalStep : Type 0 where
  answer : Status → TerminalStep
  claim : ℕ → TerminalStep

abbrev same_event : Option ℕ → ℕ → Bool
same_event none event = false
same_event (some e) event = e == event

unfoldable pub terminal_step : ℕ → ℕ → TerminalStep
terminal_step event current =
    let s = unpack_state current in
    if s == closing || s == closed
    then answer
        (if same_event (unpack_event current) event then already_same else already_different)
    else if not (s == open_state) && not (s == async_wait)
    then answer minus_one
    else claim (pack closing (some event) (unpack_cycle current))

-- The call, if no other thread changes the word between its read and its exchange.
unfoldable pub try_terminal : Connection → ℕ → Connection × Status
unfolding terminal_step
try_terminal c event =
    if not (valid_event event) then (c, minus_one) else elim (terminal_step event c.lifecycle) [
      | answer s ↦ (c, s)
      | claim desired ↦ (record c { lifecycle = desired }, claimed)
    ]

-- The result of `ck_socket_close`: 0, EINTR, or another `errno`.
pub data CloseResult : Type 0 where
  closed_well interrupted failed : CloseResult

-- What `close` does once its exchange has succeeded. The system's answer is a parameter.
pub release : (ℕ → CloseResult) → Connection → Connection × Status
release close_socket c =
    let freed = record c {
      socket_fd = none;
      http_reader = none;
      http_request_body = none;
      http_writer = none;
      http_response = none;
    } in
    elim c.socket_fd [
      | none ↦ (freed, ok)
      | some fd ↦ elim (close_socket fd) [
        | closed_well ↦ (freed, ok)
        | interrupted ↦ (freed, code 2)
        | failed ↦ (freed, minus_one)
      ]
    ]

abbrev is_none {ℓ} : {A : Type ℓ} → Option A → Bool
is_none none = true
is_none (some a) = false

pub close : (ℕ → CloseResult) → Connection → Connection × Status
unfolding release
close close_socket c =
    let current = c.lifecycle in
    if unpack_state current == closed
    then (c, code 1)
    else if not (unpack_state current == closing) || is_none (unpack_event current)
    then (c, code 1)
    else release close_socket
        (record c { lifecycle = pack closed (unpack_event current) (unpack_cycle current) })

unfoldable pub validate : Connection → ℕ → ℕ → ℕ → Status
validate c request_id owner_token lifetime_token =
    if request_id == 0
    then minus_one
    else if c.request_id == request_id
        && c.owner_token == owner_token
        && c.lifetime_token == lifetime_token
    then ok
    else code 1

unfoldable pub validate_cycle : Connection → ℕ → ℕ → ℕ → ℕ → Status
validate_cycle c request_id owner_token lifetime_token cycle_id =
    if request_id == 0 || not (valid_cycle_id cycle_id)
    then minus_one
    else if not (c.request_id == request_id)
        || not (c.owner_token == owner_token)
        || not (c.lifetime_token == lifetime_token)
    then code 1
    else if unpack_cycle c.lifecycle == cycle_id
    then ok
    else code 1

-- The getters of the four HTTP objects: NULL once the connection is closed.
abbrev pub while_not_closed : Connection → Option ℕ → Option ℕ
while_not_closed c pointer = if state c == closed then none else pointer

pub http_reader : Connection → Option ℕ
unfolding state
http_reader c = while_not_closed c c.http_reader

pub http_request_body : Connection → Option ℕ
unfolding state
http_request_body c = while_not_closed c c.http_request_body

pub http_writer : Connection → Option ℕ
unfolding state
http_writer c = while_not_closed c c.http_writer

pub http_response : Connection → Option ℕ
unfolding state
http_response c = while_not_closed c c.http_response
