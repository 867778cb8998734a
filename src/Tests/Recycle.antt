-- ===== src/Tests/Recycle.antt =====
-- A connection whose exchange is over, and its next one.
use ckarta.Prelude.{◌≡◌, ◌≢◌, ◌⊎◌, refl, true, false, some}
use ckarta.Status.{ok}
use ckarta.Connection.{Connection, state}
use ckarta.Connection.Word.{unpack_state}
use ckarta.Connection.Objects.{Objects, http_recycle, recycle_with, may_go_on, body_finished}
use ckarta.Connection.Objects.Recycle.{IsOver, IsFresh, http_recycle-IsFresh}
use ckarta.Http.Bytes.{codes}
use ckarta.Http.Input
use ckarta.Http.Reader
use ckarta.Http.Reader.Drive
use ckarta.Http.RequestBody
use ckarta.Output.Response
use ckarta.Output.Writer

abbrev linked : Connection
linked = record {
  connection_id = 7;
  request_id = 8;
  owner_token = 9;
  lifetime_token = 10;
  socket_fd = some 5;
  http_reader = some 100;
  http_request_body = some 101;
  http_writer = some 102;
  http_response = some 103;
  lifecycle = 0xff00;
}

-- Every reader has read its request and three bytes of the next.
abbrev over : Objects
over = record {
  readers = λ i. record Reader.init {
    input = record Input.init { header_complete = true; message_complete = true };
    body_queue = some 101;
    bytes = codes "xyGET";
    begin = 2;
  };
  bodies = λ i. record { head = 9; tail = 9; eof = true; error = false; buffer = λ j. 0 };
  writers = λ i. Writer.init;
  responses = λ i. record Response.init { state = Response.finished };
}

http_recycle-IsFresh_example :
    let (p, s) = http_recycle over linked in
    ((s ≡ ok) × IsOver over linked 100 101 102 103 × IsFresh over p 100 101 103)
    ⊎ ((s ≢ ok) × (p ≡ over) × ¬ IsOver over linked 100 101 102 103)
http_recycle-IsFresh_example = http_recycle-IsFresh over linked 100 101 102 103 (record {
  has_reader = refl;
  has_body = refl;
  has_writer = refl;
  has_response = refl;
  queue_is = refl;
})

-- It does go on.
over-recycled : (http_recycle over linked).1 ≡ ok
unfolding http_recycle recycle_with may_go_on body_finished state unpack_state Drive.request_of
    Drive.next_request Input.request_of Input.init Reader.init Writer.init Writer.buffered_bytes
    Response.init RequestBody.is_finished RequestBody.available RequestBody.body_used
over-recycled = refl
