-- ===== src/Output/Response.antt =====
-- The response of c/output/ck_http_response.c: its fields, its body buffer and its states.
-- `body` is the used prefix `body[0 .. body_length)`.
pub mod Decimal
pub mod States
pub mod Serialize
use ckarta.Prelude.{
  ℕ, ◌+◌, ◌-◌, ◌≡◌, ◌^◌, Bool, true, false, not, ◌&&◌, ◌||◌, [], ◌++◌, Bytes, Option, none, some,
  ltb, leb, ◌==◌, if◌then◌else◌, length,
}
use ckarta.Status.{Status, minus_one, minus_two, ok}

abbrev pub body_buffer_bytes : ℕ
body_buffer_bytes = 65536

abbrev pub size_max : ℕ
size_max = 2 ^ 64 - 1

pub data State : Type 0 where
  new committed finished failed : State

pub record Response : Type 0 where
  pub state : State
  pub status : ℕ
  pub content_length : ℕ
  pub content_length_set : Bool
  pub connection_close : Bool
  pub body : Bytes

abbrev pub is_new : State → Bool
is_new new = true
is_new _ = false

abbrev pub is_committed : State → Bool
is_committed committed = true
is_committed _ = false

abbrev pub is_finished : State → Bool
is_finished finished = true
is_finished _ = false

abbrev pub valid_status : ℕ → Bool
valid_status status = leb 200 status && leb status 599

abbrev pub fail : Response → Response
fail r = record r { state = failed }

unfoldable pub init : Response
init = record {
  state = new;
  status = 500;
  content_length = 0;
  content_length_set = false;
  connection_close = false;
  body = [];
}

unfoldable pub set_status : Response → ℕ → Response × Status
set_status r status =
    if not (valid_status status) || not (is_new r.state)
    then (r, minus_one)
    else (record r { status = status }, ok)

unfoldable pub set_content_length : Response → ℕ → Response × Status
set_content_length r content_length =
    if not (is_new r.state) || ltb size_max content_length
    then (r, minus_one)
    else (record r { content_length = content_length; content_length_set = true }, ok)

-- `enabled` is an int: only 0 and 1 are taken.
unfoldable pub set_connection_close : Response → ℕ → Response × Status
set_connection_close r enabled =
    if not (is_new r.state) || not (enabled == 0) && not (enabled == 1)
    then (r, minus_one)
    else (record r { connection_close = enabled == 1 }, ok)

unfoldable pub reset : Response → Response × Status
reset r = if not (is_new r.state) then (r, minus_one) else (
  record r {
    status = 500;
    content_length = 0;
    content_length_set = false;
    connection_close = false;
    body = [];
  },
  ok,
)

unfoldable pub commit : Response → Response × Status
commit r =
    if not (is_new r.state) || not (valid_status r.status)
    then (r, minus_one)
    else (record r { state = committed }, ok)

-- The part of `write_body` behind the commit.
append_body : Response → Bytes → Response × Status
append_body r source =
    if ltb (body_buffer_bytes - length r.body) (length source)
    then (fail r, minus_two)
    else (record r { body = r.body ++ source }, ok)

abbrev is_ok : Status → Bool
is_ok (Status.code n) = n == 0
is_ok _ = false

unfoldable pub write_body : Response → Bytes → Response × Status
unfolding commit append_body
write_body r source =
    if not (is_new r.state) && not (is_committed r.state)
    then (r, minus_one)
    else if is_new r.state
    then (let (c, s) = commit r in if is_ok s then append_body c source else (c, minus_one))
    else append_body r source

unfoldable pub finish : Response → Response × Status
finish r =
    if not (is_committed r.state)
    then (r, minus_one)
    else if r.content_length_set && not (length r.body == r.content_length)
    then (fail r, minus_two)
    else (record r { state = finished }, ok)
