-- ===== src/Connection/Objects.antt =====
-- The four objects that a connection owns, and the operations of c/connection/ck_connection.c that
-- reach into them. The store holds an object for each block; a connection, and the reader for its
-- queue, know them by their numbers.
pub mod Recycle
pub mod Quiet
use ckarta.Prelude.{ℕ, Bool, true, false, not, ◌&&◌, ◌||◌, Option, none, some, ◌==◌, if◌then◌else◌}
use ckarta.Status.{Status, minus_one, code, ok}
use ckarta.Connection.{Connection, state}
use ckarta.Connection.Word.{open_state}
use ckarta.Http.Parser
use ckarta.Http.Reader
use ckarta.Http.Reader.Drive
use ckarta.Http.RequestBody
use ckarta.Output.Response
use ckarta.Output.Writer

pub record Objects : Type 0 where
  pub readers : ℕ → Reader.Reader
  pub bodies : ℕ → RequestBody.RequestBody
  pub writers : ℕ → Writer.Writer
  pub responses : ℕ → Response.Response

pub put {ℓ} : {A : Type ℓ} → (ℕ → A) → ℕ → A → ℕ → A
put store at object i = if i == at then object else store i

-- The initial objects of a connection with these four blocks.
pub init_objects : Objects → ℕ → ℕ → ℕ → ℕ → Objects
unfolding put
init_objects o reader body writer response = record {
  readers = put o.readers reader (Reader.attach_body_queue Reader.init (some body));
  bodies = put o.bodies body (RequestBody.init (o.bodies body));
  writers = put o.writers writer Writer.init;
  responses = put o.responses response Response.init;
}

abbrev is_ok : Status → Bool
is_ok (code n) = n == 0
is_ok minus_one = false
is_ok Status.minus_two = false
is_ok Status.minus_three = false

abbrev pub is_some {ℓ} : {A : Type ℓ} → Option A → Bool
is_some none = false
is_some (some a) = true

-- `ck_http_output_writer_attach_socket`, also on NULL.
pub attach_writer : Objects → Option ℕ → Option ℕ → Objects × Status
unfolding put
attach_writer o none socket_fd = (o, minus_one)
attach_writer o (some writer) socket_fd =
    let (w, s) = Writer.attach_socket (o.writers writer) socket_fd in
    (record o { writers = put o.writers writer w }, s)

pub attach_socket : Objects → Connection → Option ℕ → Objects × Connection × Status
unfolding attach_writer
attach_socket o c socket_fd =
    let (p, s) = attach_writer o c.http_writer socket_fd in
    if not (is_some socket_fd)
    then (o, c, minus_one)
    else if not (state c == open_state) || is_some c.socket_fd
    then (o, c, code 1)
    else if not (is_ok s)
    then (p, record c { socket_fd = none }, minus_one)
    else (p, record c { socket_fd = socket_fd }, ok)

pub socket_fd : Connection → Option ℕ
socket_fd c = c.socket_fd

-- The conditions of `ck_connection_http_recycle` on the four objects.
unfoldable pub may_go_on : Parser.Request → Response.Response → Writer.Writer → Bool → Bool
may_go_on q response writer body_finished = not (
    q.connection_close_required
    || not (Response.is_finished response.state)
    || not (Writer.buffered_bytes writer == 0)
    || not body_finished
    || response.connection_close)

-- `ck_http_request_body_is_finished`, also on NULL.
unfoldable pub body_finished : Objects → Option ℕ → Bool
body_finished o none = false
body_finished o (some body) = RequestBody.is_finished (o.bodies body)

-- The part with the reader, the writer and the response at hand.
unfoldable pub recycle_with : Objects → Connection → ℕ → ℕ → ℕ → Objects × Status
unfolding may_go_on body_finished put
recycle_with o c reader writer response =
    let r = o.readers reader in
    if not (state c == open_state) then (o, code 1) else elim (Drive.request_of r) [
      | none ↦ (o, code 2)
      | some q ↦
          if not r.input.message_complete
          then (o, code 2)
          else if not (
              may_go_on q (o.responses response) (o.writers writer)
                (body_finished o c.http_request_body))
          then (o, code 3)
          else elim (Drive.next_request r o.bodies) [
            | none ↦ (o, minus_one)
            | some (next, bodies) ↦ (
              record o {
                readers = put o.readers reader next;
                bodies = bodies;
                responses = put o.responses response Response.init;
              },
              ok,
            )
          ]
    ]

unfoldable pub http_recycle : Objects → Connection → Objects × Status
unfolding recycle_with
http_recycle o c = elim c.http_reader [
  | none ↦ (o, minus_one)
  | some reader ↦ elim c.http_writer [
    | none ↦ (o, minus_one)
    | some writer ↦ elim c.http_response [
      | none ↦ (o, minus_one)
      | some response ↦ recycle_with o c reader writer response
    ]
  ]
]
